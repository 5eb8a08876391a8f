-- ===== src/Net/Connecting.antt =====
-- What `CTasConnSocket::connect` leaves (src/tas_socket/tas_conn_socket.cpp).
use tas_client_api.Prelude.{
  Some, ℕ, ◌≡◌, ◌≢◌, refl, ap, sym, ◌∙◌, ◌⊎◌, inl, inr, Bool, true, false, Option, none, some, List,
  [], ◌∷◌, ◌==◌, if-lem, All, arith,
}
use tas_client_api.Net.Established.{IsEstablished, attempt-IsEstablished}
use tas_client_api.Net.Resolver.{
  AddrInfo, Connected, connected, pending, failed, Calls, ConnSocket, close, sleep_ms, after_error,
  after_select, after_connect, connect_nonblock, attempt, after_attempt, on_desc, renew,
  connect_loop, after_loop, resolved, connect,
}

module _ {S : Type 0} (calls : Calls S) where
  -- `k` is what the connecting to one of the addresses left, which the system established.
  abbrev pub IsConnection : ℕ → Option ℕ → ConnSocket S → List AddrInfo → Type 0
  IsConnection port timeout_ms k = Some (λ (a : AddrInfo).
      (a.ai_family ≡ calls.af_inet)
      × (d : ℕ) × (before : ConnSocket S) × (k.desc ≡ some d)
      × IsEstablished calls d a.sin_addr port timeout_ms before.sys
      × (attempt calls d a port timeout_ms before ≡ (true, k)))

  -- The connecting leaves the descriptor as it is.
  after_error-desc :
      (ms : ℕ) (k : ConnSocket S) (r : Option ℕ × S) → (after_error calls ms k r).1.desc ≡ k.desc
  unfolding after_error sleep_ms
  after_error-desc ms k (none, s) = refl
  after_error-desc ms k (some e, s) =
      if-lem (λ (r : Bool × ConnSocket S). r.1.desc ≡ k.desc) (e == 0) (λ h. refl) (λ h. refl)

  after_select-desc :
      (d ms : ℕ) (k : ConnSocket S) (r : Bool × Bool × S)
      → (after_select calls d ms k r).1.desc ≡ k.desc
  unfolding after_select
  after_select-desc d ms k (timed_out, is_set, s) =
      if-lem (λ (r : Bool × ConnSocket S). r.1.desc ≡ k.desc) is_set
        (λ h. after_error-desc ms (record k { sys = s }) (calls.so_error d s)) (λ h. refl)

  after_connect-desc :
      (d ms : ℕ) (k : ConnSocket S) (r : Connected × S)
      → (after_connect calls d ms k r).1.desc ≡ k.desc
  unfolding after_connect sleep_ms
  after_connect-desc d ms k (connected, s) = refl
  after_connect-desc d ms k (failed, s) = refl
  after_connect-desc d ms k (pending, s) = after_select-desc d ms k (calls.select_write d ms s)

  attempt-desc :
      (d : ℕ) (a : AddrInfo) (port : ℕ) (timeout_ms : Option ℕ) (k : ConnSocket S)
      → (attempt calls d a port timeout_ms k).1.desc ≡ k.desc
  unfolding attempt connect_nonblock
  attempt-desc d a port none k = refl
  attempt-desc d a port (some ms) k =
      let r = calls.ioctl_nonblock d true k.sys in
      if-lem (λ (r : Bool × ConnSocket S). r.1.desc ≡ k.desc) r.0
        (λ h. after_connect-desc d ms k (calls.connect d a.sin_addr port r.1)) (λ h. refl)

  -- What the loop leaves: a connection to one of the addresses; or no connection, and either no
  -- descriptor, or none of the addresses is one of IPv4 and the socket is as it was.
  abbrev pub IsTried : List AddrInfo → ℕ → Option ℕ → ConnSocket S → Bool × ConnSocket S → Type 0
  IsTried res port timeout_ms k r =
      ((r.0 ≡ true) × IsConnection port timeout_ms r.1 res)
      ⊎ ((r.0 ≡ false)
          × ((r.1.desc ≡ none)
              ⊎ ((r.1 ≡ k) × All (λ (a : AddrInfo). a.ai_family ≢ calls.af_inet) res)))

  -- A later round's connection is one of the whole list's.
  later :
      (a : AddrInfo) (others : List AddrInfo) (port : ℕ) (timeout_ms : Option ℕ)
      (k k' : ConnSocket S) (r : Bool × ConnSocket S)
      → k'.desc ≡ none
      → IsTried others port timeout_ms k' r
      → IsTried (a ∷ others) port timeout_ms k r
  later a others port timeout_ms k k' r gone (inl (e, at)) = inl (e, inr at)
  later a others port timeout_ms k k' r gone (inr (e, inl closed)) = inr (e, inl closed)
  later a others port timeout_ms k k' r gone (inr (e, inr (same, others_fail))) =
      inr (e, inl (ap (λ (x : ConnSocket S). x.desc) same ∙ gone))

  -- A round of the descriptor `d`, given what the later rounds leave of a socket without one.
  after_attempt-IsTried :
      (a : AddrInfo) (others : List AddrInfo) (port : ℕ) (timeout_ms : Option ℕ)
      (k now : ConnSocket S) (d : ℕ) (r : Bool × ConnSocket S)
      → a.ai_family ≡ calls.af_inet
      → now.desc ≡ some d
      → attempt calls d a port timeout_ms now ≡ r
      → ((k' : ConnSocket S)
          → IsTried others port timeout_ms k' (connect_loop calls others port timeout_ms k'))
      → IsTried
          (a ∷ others)
          port
          timeout_ms
          k
          (after_attempt calls (connect_loop calls others port timeout_ms) r)
  after_attempt-IsTried a others port timeout_ms k now d (true, k') f e q rest =
      let kept =
        ap (λ (x : Bool × ConnSocket S). x.1.desc) (sym q) ∙ attempt-desc d a port timeout_ms now in
      let made =
        attempt-IsEstablished calls d a port timeout_ms now
          (ap (λ (x : Bool × ConnSocket S). x.0) q) in
      inl (refl, inl (f, d, now, kept ∙ e, made, q))
  after_attempt-IsTried a others port timeout_ms k now d (false, k') f e q rest =
      later a others port timeout_ms k (close calls k') _ refl (rest (close calls k'))

  on_desc-IsTried :
      (a : AddrInfo) (others : List AddrInfo) (port : ℕ) (timeout_ms : Option ℕ)
      (k now : ConnSocket S) (o : Option ℕ)
      → a.ai_family ≡ calls.af_inet
      → now.desc ≡ o
      → ((k' : ConnSocket S)
          → IsTried others port timeout_ms k' (connect_loop calls others port timeout_ms k'))
      → IsTried
          (a ∷ others)
          port
          timeout_ms
          k
          (on_desc calls a port timeout_ms (connect_loop calls others port timeout_ms) o now)
  unfolding on_desc
  on_desc-IsTried a others port timeout_ms k now none f e rest =
      later a others port timeout_ms k now _ e (rest now)
  on_desc-IsTried a others port timeout_ms k now (some d) f e rest =
      after_attempt-IsTried a others port timeout_ms k now d _ f e refl rest

  -- An address that is not one of IPv4 is left out.
  skip :
      (a : AddrInfo) (others : List AddrInfo) (port : ℕ) (timeout_ms : Option ℕ) (k : ConnSocket S)
      (r : Bool × ConnSocket S)
      → a.ai_family ≢ calls.af_inet
      → IsTried others port timeout_ms k r
      → IsTried (a ∷ others) port timeout_ms k r
  skip a others port timeout_ms k r f (inl (e, at)) = inl (e, inr at)
  skip a others port timeout_ms k r f (inr (e, inl closed)) = inr (e, inl closed)
  skip a others port timeout_ms k r f (inr (e, inr (same, others_fail))) =
      inr (e, inr (same, (f, others_fail)))

  connect_loop-IsTried :
      (res : List AddrInfo) (port : ℕ) (timeout_ms : Option ℕ) (k : ConnSocket S)
      → IsTried res port timeout_ms k (connect_loop calls res port timeout_ms k)
  unfolding connect_loop
  connect_loop-IsTried [] port timeout_ms k = inr (refl, inr (refl, tt))
  connect_loop-IsTried (a ∷ others) port timeout_ms k =
      if-lem (IsTried (a ∷ others) port timeout_ms k) (a.ai_family == calls.af_inet)
        (λ h.
          on_desc-IsTried a others port timeout_ms k (renew calls a k) _ (ground arith) refl
            (connect_loop-IsTried others port timeout_ms))
        (λ h.
          skip a others port timeout_ms k _ (ground arith)
            (connect_loop-IsTried others port timeout_ms k))

  -- What `connect` leaves of a socket `k`, given what the name resolution gave.
  abbrev pub IsConnected :
      ℕ → Option ℕ → ConnSocket S → Option (List AddrInfo) × S → Bool × ConnSocket S → Type 0
  IsConnected port timeout_ms k (none, s) r = r ≡ (false, record k { sys = s })
  IsConnected port timeout_ms k (some res, s) r =
      ((r.0 ≡ true)
        × (k' : ConnSocket S) × (r.1 ≡ record k' { sys = calls.freeaddrinfo res k'.sys })
        × IsConnection port timeout_ms k' res)
      ⊎ ((r.0 ≡ false)
          × ((r.1.desc ≡ none)
              ⊎ ((r.1 ≡ record k { sys = s })
                  × All (λ (a : AddrInfo). a.ai_family ≢ calls.af_inet) res)))

  after_loop-IsConnected :
      (res : List AddrInfo) (port : ℕ) (timeout_ms : Option ℕ) (k : ConnSocket S) (s : S)
      (r : Bool × ConnSocket S)
      → IsTried res port timeout_ms (record k { sys = s }) r
      → IsConnected port timeout_ms k (some res, s) (after_loop calls res r)
  after_loop-IsConnected res port timeout_ms k s (true, k') (inl (e, at)) = inl (refl, k', refl, at)
  after_loop-IsConnected res port timeout_ms k s (false, k') (inr (e, rest)) = inr (refl, rest)
  after_loop-IsConnected res port timeout_ms k s (true, k') (inr (e, rest)) = cc
  after_loop-IsConnected res port timeout_ms k s (false, k') (inl (e, at)) = cc

  resolved-IsConnected :
      (port : ℕ) (timeout_ms : Option ℕ) (k : ConnSocket S) (g : Option (List AddrInfo) × S)
      → IsConnected port timeout_ms k g (resolved calls port timeout_ms k g)
  resolved-IsConnected port timeout_ms k (none, s) = refl
  resolved-IsConnected port timeout_ms k (some res, s) =
      after_loop-IsConnected res port timeout_ms k s _
        (connect_loop-IsTried res port timeout_ms (record k { sys = s }))

  -- On every path through `connect`, and whatever the operating system does: if the name cannot be
  -- resolved, it returns false, and the socket is as it was. Otherwise either it returns true, and for
  -- one of the IPv4 addresses `::connect` returned 0, or, given a time, was pending, where `::select`
  -- then did not report that the time ran out, though it may have failed, and `getsockopt`, if it was
  -- called, found no error or failed; the socket is as the connecting to this address left it, with
  -- its descriptor, once the addresses are given back. Or it returns false, and either the socket has no
  -- descriptor, or none of the addresses is one of IPv4 and the socket is as it was.
  pub connect-IsConnected :
      (hostname : List ℕ) (port : ℕ) (timeout_ms : Option ℕ) (k : ConnSocket S)
      → IsConnected port timeout_ms k
          (calls.getaddrinfo hostname k.sys)
          (connect calls hostname port timeout_ms k)
  unfolding connect
  connect-IsConnected hostname port timeout_ms k =
      resolved-IsConnected port timeout_ms k (calls.getaddrinfo hostname k.sys)
