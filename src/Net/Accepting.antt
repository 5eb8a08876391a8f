-- ===== src/Net/Accepting.antt =====
-- When `CTasConnSocket::connect` connects (src/tas_socket/tas_conn_socket.cpp).
use tas_client_api.Prelude.{
  Some, ℕ, ◌≡◌, refl, ◌⊎◌, inl, inr, Bool, true, false, Option, none, some, List, [], ◌∷◌, ◌==◌,
  if-lem, arith,
}
use tas_client_api.Net.Resolver.{
  AddrInfo, connected, Calls, ConnSocket, close, attempt, after_attempt, on_desc, renew,
  connect_loop, after_loop, connect,
}

module _ {S : Type 0} (calls : Calls S) where
  -- An address of IPv4 to which a blocking `::connect` succeeds.
  abbrev pub IsAccepting : ℕ → AddrInfo → Type 0
  IsAccepting port a =
      (a.ai_family ≡ calls.af_inet)
      × ((d : ℕ) (s : S) → (calls.connect d a.sin_addr port s).0 ≡ connected)

  -- `::socket` gives a descriptor.
  abbrev pub IsOpening : Type 0
  IsOpening = (type protocol : ℕ) (s : S) → (d : ℕ) × ((calls.socket type protocol s).0 ≡ some d)

  renew-desc :
      (a : AddrInfo) (k : ConnSocket S) (o : Option ℕ)
      → IsOpening
      → k.desc ≡ o
      → (d : ℕ) × ((renew calls a k).desc ≡ some d)
  renew-desc a k none opening e =
      let (d, made) = opening a.ai_socktype a.ai_protocol k.sys in (d, rw e made)
  renew-desc a k (some d) opening e = (d, rw e refl)

  -- A round succeeds if it connects, or if the later rounds do.
  after_attempt-true :
      (rest : ConnSocket S → Bool × ConnSocket S) (r : Bool × ConnSocket S)
      → (r.0 ≡ true) ⊎ ((k : ConnSocket S) → (rest k).0 ≡ true)
      → (after_attempt calls rest r).0 ≡ true
  after_attempt-true rest (true, k) h = refl
  after_attempt-true rest (false, k) (inl e) = cc
  after_attempt-true rest (false, k) (inr h) = h (close calls k)

  on_desc-true :
      (a : AddrInfo) (port : ℕ) (rest : ConnSocket S → Bool × ConnSocket S) (k : ConnSocket S)
      (o : Option ℕ) (d : ℕ)
      → o ≡ some d
      → ((calls.connect d a.sin_addr port k.sys).0 ≡ connected)
        ⊎ ((k' : ConnSocket S) → (rest k').0 ≡ true)
      → (on_desc calls a port none rest o k).0 ≡ true
  unfolding on_desc attempt
  on_desc-true a port rest k o d e h = rw e (
      after_attempt-true rest (attempt calls d a port none k)
        (elim h [ inl c ↦ inl (rw c refl) | inr w ↦ inr w ]))

  connect_loop-true :
      (res : List AddrInfo) (port : ℕ) (k : ConnSocket S)
      → IsOpening
      → Some (IsAccepting port) res
      → (connect_loop calls res port none k).0 ≡ true
  unfolding connect_loop
  connect_loop-true [] port k opening h = elim h [ ]
  connect_loop-true (a ∷ others) port k opening h =
      let rest = connect_loop calls others port none in
      let later = λ (w : Some (IsAccepting port) others).
        λ (k' : ConnSocket S). connect_loop-true others port k' opening w in
      let (d, made) = renew-desc a k k.desc opening refl in
      if-lem (λ (r : Bool × ConnSocket S). r.0 ≡ true) (a.ai_family == calls.af_inet)
        (λ e.
          on_desc-true a port rest (renew calls a k) _ d made
            (elim h [ inl (f, accepts) ↦ inl (accepts d _) | inr w ↦ inr (later w) ]))
        (λ e. elim h [
          | inl (f, accepts) ↦ ground arith
          | inr w ↦ connect_loop-true others port k opening w
        ])

  after_loop-true :
      (res : List AddrInfo) (r : Bool × ConnSocket S)
      → r.0 ≡ true
      → (after_loop calls res r).0 ≡ true
  after_loop-true res (true, k) e = refl
  after_loop-true res (false, k) e = e

  -- If the name is resolved, the system gives descriptors, and one of the addresses is one of IPv4 that
  -- accepts connections, then a blocking `connect` returns true, whatever the other addresses do.
  pub connect-connects :
      (hostname : List ℕ) (port : ℕ) (k : ConnSocket S) (res : List AddrInfo)
      → (calls.getaddrinfo hostname k.sys).0 ≡ some res
      → IsOpening
      → Some (IsAccepting port) res
      → (connect calls hostname port none k).0 ≡ true
  unfolding connect
  connect-connects hostname port k res e opening h =
      rw e (after_loop-true res _ (connect_loop-true res port _ opening h))
