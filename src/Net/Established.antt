-- ===== src/Net/Established.antt =====
-- When the connecting of CTasConnSocket to an address succeeds, by the answers of the operating
-- system (src/tas_socket/tas_conn_socket.cpp).
use tas_client_api.Prelude.{
  ℕ, ◌≡◌, refl, ap, ◌⊎◌, inl, inr, Bool, true, false, ◌&&◌, Option, none, some, ◌==◌, if-lem, arith,
}
use tas_client_api.Net.Resolver.{
  AddrInfo, Connected, connected, pending, failed, Calls, ConnSocket, after_error, after_select,
  after_connect, connect_nonblock, attempt,
}

and-snd : (a b : Bool) → (a && b) ≡ true → b ≡ true
and-snd true b h = h
and-snd false b h = cc

module _ {S : Type 0} (calls : Calls S) where
  -- `::select` did not run out of time; and, if the descriptor is then in the set, `getsockopt` fails or
  -- finds no error.
  abbrev pub IsAwaited : ℕ → Bool × Bool × S → Type 0
  IsAwaited d r =
      (r.0 ≡ false)
      × ((r.1 ≡ false) ⊎ (((calls.so_error d r.2).0 ≡ none) ⊎ ((calls.so_error d r.2).0 ≡ some 0)))

  -- `::connect` returns 0, or is pending and awaited.
  abbrev pub IsMade : ℕ → ℕ → Connected × S → Type 0
  IsMade d ms c = (c.0 ≡ connected) ⊎ ((c.0 ≡ pending) × IsAwaited d (calls.select_write d ms c.1))

  -- What the system answers when the descriptor `d` is connected to an address, from the state `s`:
  -- without a time, `::connect` returns 0; with one, the descriptor becomes non-blocking before.
  abbrev pub IsEstablished : ℕ → ℕ → ℕ → Option ℕ → S → Type 0
  IsEstablished d addr port none s = (calls.connect d addr port s).0 ≡ connected
  IsEstablished d addr port (some ms) s =
      ((calls.ioctl_nonblock d true s).0 ≡ true)
      × IsMade d ms (calls.connect d addr port (calls.ioctl_nonblock d true s).1)

  after_error-true :
      (ms : ℕ) (k : ConnSocket S) (r : Option ℕ × S)
      → (after_error calls ms k r).0 ≡ true
      → (r.0 ≡ none) ⊎ (r.0 ≡ some 0)
  unfolding after_error
  after_error-true ms k (none, s) = λ h. inl refl
  after_error-true ms k (some e, s) =
      if-lem (λ (r : Bool × ConnSocket S). r.0 ≡ true → (some e ≡ none) ⊎ (some e ≡ some 0))
        (e == 0) (λ z. λ h. inr (ap some (ground arith))) (λ z. λ h. cc)

  after_select-true :
      (d ms : ℕ) (k : ConnSocket S) (r : Bool × Bool × S)
      → (after_select calls d ms k r).0 ≡ true
      → IsAwaited d r
  unfolding after_select
  after_select-true d ms k (true, true, s) h = cc
  after_select-true d ms k (true, false, s) h = cc
  after_select-true d ms k (false, true, s) h =
      (refl, inr (after_error-true ms (record k { sys = s }) (calls.so_error d s) h))
  after_select-true d ms k (false, false, s) h = (refl, inl refl)

  after_connect-true :
      (d ms : ℕ) (k : ConnSocket S) (c : Connected × S)
      → (after_connect calls d ms k c).0 ≡ true
      → IsMade d ms c
  unfolding after_connect
  after_connect-true d ms k (connected, s) h = inl refl
  after_connect-true d ms k (failed, s) h = cc
  after_connect-true d ms k (pending, s) h =
      inr (refl, after_select-true d ms k (calls.select_write d ms s) h)

  is_connected-true :
      (c : Connected)
      → elim c [ connected ↦ true | pending ↦ false | failed ↦ false ] ≡ true
      → c ≡ connected
  is_connected-true connected h = refl
  is_connected-true pending h = cc
  is_connected-true failed h = cc

  -- Where the connecting to an address returns true, the system has established it.
  pub attempt-IsEstablished :
      (d : ℕ) (a : AddrInfo) (port : ℕ) (timeout_ms : Option ℕ) (k : ConnSocket S)
      → (attempt calls d a port timeout_ms k).0 ≡ true
      → IsEstablished d a.sin_addr port timeout_ms k.sys
  unfolding attempt connect_nonblock
  attempt-IsEstablished d a port none k =
      λ h. is_connected-true (calls.connect d a.sin_addr port k.sys).0 h
  attempt-IsEstablished d a port (some ms) k =
      let on = calls.ioctl_nonblock d true k.sys in
      let c = calls.connect d a.sin_addr port on.1 in
      if-lem (λ (r : Bool × ConnSocket S). r.0 ≡ true → (on.0 ≡ true) × IsMade d ms c) on.0
        (λ e. λ h. (e, after_connect-true d ms k c (and-snd _ _ h))) (λ e. λ h. cc)
