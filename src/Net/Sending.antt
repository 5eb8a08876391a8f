-- ===== src/Net/Sending.antt =====
-- What CTasConnSocket::sendAll puts on the wire (src/tas_socket/tas_conn_socket.cpp).
use tas_client_api.Prelude.{
  ℕ, zero, suc, ◌+◌, ◌-◌, ◌≤◌, ◌<◌, ◌≡◌, refl, sym, ap, ap₂, ◌∙◌, ◌⊎◌, inl, inr, arith, Bool, true,
  false, Option, none, some, List, ◌∷◌, ◌++◌, append_assoc, append-nil, length, Mem, get_byte,
  get_bytes, take,
}
use tas_client_api.Net.Os.{Os}
use tas_client_api.Net.Socket.{send, wait_write, after_send, send_all}

-- What `::send` and `::select` document: of the bytes that are handed over, a first part is
-- transmitted, at least one when there are any and the call succeeds, and nothing when it fails.
pub record IsTransport {S : Type 0} (os : Os S) (sent : S → List ℕ) : Type 0 where
  pub waits : (ms : ℕ) (s : S) → sent (os.select_write ms s) ≡ sent s
  pub sends :
      (bs : List ℕ) (s : S) (n : ℕ)
      → (os.send bs s).0 ≡ some n
      → (n ≤ length bs) × (sent (os.send bs s).1 ≡ sent s ++ take n bs)
  pub progress : (bs : List ℕ) (s : S) (n : ℕ) → (os.send bs s).0 ≡ some n → 0 < length bs → 0 < n
  pub fails : (bs : List ℕ) (s : S) → (os.send bs s).0 ≡ none → sent (os.send bs s).1 ≡ sent s

pub length-get_bytes : (m : Mem ℕ) (i n : ℕ) → length (get_bytes m i n) ≡ n
unfolding get_bytes
length-get_bytes m i zero = refl
length-get_bytes m i (suc n) = ap suc (length-get_bytes m (i + 1) n)

pub take-get_bytes : (m : Mem ℕ) (i n k : ℕ) → k ≤ n → take k (get_bytes m i n) ≡ get_bytes m i k
unfolding get_bytes take
take-get_bytes m i n zero h = refl
take-get_bytes m i zero (suc k) h = absurd (omega arith)
take-get_bytes m i (suc n) (suc k) h =
    ap (λ xs. get_byte m i ∷ xs) (take-get_bytes m (i + 1) n k (omega arith))

pub get_bytes-append :
    (m : Mem ℕ) (i k n : ℕ) → get_bytes m i k ++ get_bytes m (i + k) n ≡ get_bytes m i (k + n)
unfolding get_bytes
get_bytes-append m i zero n = ap₂ (get_bytes m) (omega arith) (omega arith)
get_bytes-append m i (suc k) n =
    ap (λ xs. get_byte m i ∷ xs)
      (ap (λ j. get_bytes m (i + 1) k ++ get_bytes m j n) (omega arith)
        ∙ get_bytes-append m (i + 1) k n)
    ∙ ap (get_bytes m i) {x = suc (k + n)} (omega arith)

pub append-no_bytes : (xs : List ℕ) (m : Mem ℕ) (i : ℕ) → xs ++ get_bytes m i 0 ≡ xs
unfolding get_bytes
append-no_bytes xs m i = append-nil xs

-- `sendAll` of `left` bytes at `i` returns: with an error after a first part of the bytes, or
-- with success after all of them.
abbrev pub IsSent : {S : Type 0} → (S → List ℕ) → Mem ℕ → ℕ → ℕ → S → Option (Bool × S) → Type 0
IsSent {S} sent buf i left s o =
    (b : Bool) × (s' : S) × (k : ℕ) × (o ≡ some (b, s'))
    × (sent s' ≡ sent s ++ get_bytes buf i k)
    × (((b ≡ false) × (k < left)) ⊎ ((b ≡ true) × (k ≡ left)))

module _ {S : Type 0} (os : Os S) (sent : S → List ℕ) (is_transport : IsTransport os sent) where
  wait-sent : (timeout_ms : Option ℕ) (s : S) → sent (wait_write os timeout_ms s) ≡ sent s
  wait-sent none s = refl
  wait-sent (some ms) s = is_transport.waits ms s

  -- A first call that took `n` bytes, and the rest.
  join :
      (buf : Mem ℕ) (i n left : ℕ) (s s1 : S) (o : Option (Bool × S))
      → n ≤ left
      → sent s1 ≡ sent s ++ get_bytes buf i n
      → IsSent sent buf (i + n) (left - n) s1 o
      → IsSent sent buf i left s o
  join buf i n left s s1 o le first (b, s', k, e, rest, h) = (
    b,
    s',
    n + k,
    e,
    rest
        ∙ ap (λ xs. xs ++ get_bytes buf (i + n) k) first
        ∙ append_assoc (sent s) (get_bytes buf i n) (get_bytes buf (i + n) k)
        ∙ ap (λ xs. sent s ++ xs) (get_bytes-append buf i n k),
    ground (arith, h),
  )

  -- Of one call of `send`.
  resume :
      (buf : Mem ℕ) (i l : ℕ) (s s0 : S) (rest : ℕ → S → Option (Bool × S)) (r : Option ℕ × S)
      → os.send (get_bytes buf i (suc l)) s0 ≡ r
      → sent s0 ≡ sent s
      → ((n : ℕ) (s' : S) → 0 < n → n ≤ suc l → IsSent sent buf (i + n) (suc l - n) s' (rest n s'))
      → IsSent sent buf i (suc l) s (after_send os rest r)
  resume buf i l s s0 rest (none, s1) e same h = (
    false,
    s1,
    0,
    refl,
    ap (λ r. sent r.1) (sym e)
        ∙ is_transport.fails (get_bytes buf i (suc l)) s0 (ap (λ r. r.0) e)
        ∙ same
        ∙ sym (append-no_bytes (sent s) buf i),
    inl (refl, omega arith),
  )
  resume buf i l s s0 rest (some n, s1) e same h =
      join buf i n (suc l) s s1 (rest n s1) le
        (ap (λ r. sent r.1) (sym e) ∙ taken.1 ∙ ap₂ ◌++◌ same (take-get_bytes buf i (suc l) n le))
        (h n s1
          (is_transport.progress bytes s0 n ok (omega (arith, length-get_bytes buf i (suc l)))) le)
    where
      bytes : List ℕ
      bytes = get_bytes buf i (suc l)

      ok : (os.send bytes s0).0 ≡ some n
      ok = ap (λ r. r.0) e

      taken : (n ≤ length bytes) × (sent (os.send bytes s0).1 ≡ sent s0 ++ take n bytes)
      taken = is_transport.sends bytes s0 n ok

      le : n ≤ suc l
      le = omega (arith, taken.0, length-get_bytes buf i (suc l))

  send_all-fuel :
      (fuel : ℕ) (buf : Mem ℕ) (i left : ℕ) (timeout_ms : Option ℕ) (s : S)
      → left < fuel
      → IsSent sent buf i left s (send_all os fuel buf i left timeout_ms s)
  unfolding send_all send
  send_all-fuel zero buf i left timeout_ms s h = absurd (omega arith)
  send_all-fuel (suc fuel) buf i zero timeout_ms s h =
      (true, s, 0, refl, sym (append-no_bytes (sent s) buf i), inr (refl, refl))
  send_all-fuel (suc fuel) buf i (suc l) timeout_ms s h =
      resume buf i l s (wait_write os timeout_ms s)
        (λ n. λ s'. send_all os fuel buf (i + n) (suc l - n) timeout_ms s')
        (send os buf i (suc l) timeout_ms s) refl (wait-sent timeout_ms s)
        (λ n.
          λ s'. λ pos. λ le. send_all-fuel fuel buf (i + n) (suc l - n) timeout_ms s' (omega arith))

  -- If the calls of the operating system behave as documented, `sendAll` returns, with a call for
  -- each byte at most. On success the bytes of the buffer are transmitted, all of them and in order;
  -- on an error a first part of them is.
  pub send_all-IsSent :
      (buf : Mem ℕ) (i left : ℕ) (timeout_ms : Option ℕ) (s : S)
      → IsSent sent buf i left s (send_all os (left + 1) buf i left timeout_ms s)
  send_all-IsSent buf i left timeout_ms s =
      send_all-fuel (left + 1) buf i left timeout_ms s (omega arith)
