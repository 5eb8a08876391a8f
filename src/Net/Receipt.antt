-- ===== src/Net/Receipt.antt =====
-- What a receipt of bytes by CTasPktMailboxSocket leaves (src/tas_client/tas_pkt_mailbox_socket.cpp).
use tas_client_api.Prelude.{
  ℕ, ◌+◌, ◌*◌, ◌/◌, ◌^◌, ◌≤◌, ◌<◌, ◌≡◌, ◌≢◌, refl, ◌∙◌, ap, sym, subst, ◌⊎◌, inl, inr, arith, Bool,
  true, false, Option, none, some, List, [], ◌∷◌, length, Mem, store, ◌==◌, ◌!=◌, if-lem,
  Bool-cases, put_bytes, store_byte, store_byte-word,
}
use tas_client_api.Net.Os.{Os, IsOs}
use tas_client_api.Net.Socket.{Receipt, deposit, after_select, recv, time_of, size_of}
use tas_client_api.Net.Mailbox.{Mailbox, is_failure, socket_disconnect, socket_receive}

-- Words outside of the bytes written stay.
put_bytes-elsewhere :
    (bs : List ℕ) (m : Mem ℕ) (i k : ℕ)
    → (i + length bs ≤ 4 * k) ⊎ (4 * k + 4 ≤ i)
    → put_bytes bs m i k ≡ m k
unfolding put_bytes
put_bytes-elsewhere [] m i k h = refl
put_bytes-elsewhere (b ∷ bs) m i k (inl h) =
    let other : (i / 4 == k) ≡ false = ground arith in
    put_bytes-elsewhere bs (store_byte m i b) (i + 1) k (inl (omega arith)) ∙ rw other refl
put_bytes-elsewhere (b ∷ bs) m i k (inr h) =
    let other : (i / 4 == k) ≡ false = ground arith in
    put_bytes-elsewhere bs (store_byte m i b) (i + 1) k (inr (omega arith)) ∙ rw other refl

put_bytes-word : (bs : List ℕ) (m : Mem ℕ) (i k : ℕ) → m k < 2 ^ 32 → put_bytes bs m i k < 2 ^ 32
unfolding put_bytes
put_bytes-word [] m i k h = h
put_bytes-word (b ∷ bs) m i k h =
    put_bytes-word bs (store_byte m i b) (i + 1) k (store_byte-word m i b k h)

module _ {S : Type 0} (os : Os S) where
  deposit-word :
      (buf : Mem ℕ) (i k : ℕ) (r : Option (List ℕ) × S)
      → buf k < 2 ^ 32
      → (deposit os buf i r).buf k < 2 ^ 32
  deposit-word buf i k (none, s) h = h
  deposit-word buf i k (some got, s) h = put_bytes-word got buf i k h

  after_select-word :
      (buf : Mem ℕ) (i len k : ℕ) (r : Bool × S)
      → buf k < 2 ^ 32
      → (after_select os buf i len r).buf k < 2 ^ 32
  after_select-word buf i len k (true, s) h = h
  after_select-word buf i len k (false, s) h = deposit-word buf i k (os.recv len s) h

  recv-word :
      (buf : Mem ℕ) (i len k : ℕ) (timeout : Option ℕ) (s : S)
      → buf k < 2 ^ 32
      → (recv os buf i len timeout s).buf k < 2 ^ 32
  unfolding recv
  recv-word buf i len k none s h = deposit-word buf i k (os.recv len s) h
  recv-word buf i len k (some ms) s h = after_select-word buf i len k (os.select_read ms s) h

module _ {S : Type 0} (os : Os S) (is_os : IsOs os) where
  -- Word `k` is not among the `len` bytes from byte offset `i` on.
  abbrev IsApart : ℕ → ℕ → ℕ → Type 0
  IsApart i len k = (i + len ≤ 4 * k) ⊎ (4 * k + 4 ≤ i)

  deposit-elsewhere :
      (buf : Mem ℕ) (i len k : ℕ) (r : Option (List ℕ) × S)
      → ((got : List ℕ) → r.0 ≡ some got → length got ≤ len)
      → IsApart i len k
      → (deposit os buf i r).buf k ≡ buf k
  deposit-elsewhere buf i len k (none, s) most h = refl
  deposit-elsewhere buf i len k (some got, s) most (inl h) =
      put_bytes-elsewhere got buf i k (inl (omega (arith, most got refl)))
  deposit-elsewhere buf i len k (some got, s) most (inr h) = put_bytes-elsewhere got buf i k (inr h)

  after_select-elsewhere :
      (buf : Mem ℕ) (i len k : ℕ) (r : Bool × S)
      → IsApart i len k
      → (after_select os buf i len r).buf k ≡ buf k
  after_select-elsewhere buf i len k (true, s) h = refl
  after_select-elsewhere buf i len k (false, s) h =
      deposit-elsewhere buf i len k (os.recv len s) (is_os.recv_most len s) h

  recv-elsewhere :
      (buf : Mem ℕ) (i len k : ℕ) (timeout : Option ℕ) (s : S)
      → IsApart i len k
      → (recv os buf i len timeout s).buf k ≡ buf k
  unfolding recv
  recv-elsewhere buf i len k none s h =
      deposit-elsewhere buf i len k (os.recv len s) (is_os.recv_most len s) h
  recv-elsewhere buf i len k (some ms) s h =
      after_select-elsewhere buf i len k (os.select_read ms s) h

  pub disconnect-buf : (m : Mailbox S) → (socket_disconnect os m).rsp_buf ≡ m.rsp_buf
  unfolding socket_disconnect
  disconnect-buf m =
      if-lem (λ (x : Mailbox S). x.rsp_buf ≡ m.rsp_buf) m.connected (λ h. refl) (λ h. refl)

  -- A receipt of `n` bytes at word `w` leaves the words elsewhere.
  pub socket_receive-elsewhere :
      (w n k : ℕ) (m : Mailbox S)
      → n < 2 ^ 31
      → w ≢ k
      → IsApart (4 * w) n k
      → (socket_receive os w n m).1.rsp_buf k ≡ m.rsp_buf k
  unfolding socket_receive
  socket_receive-elsewhere w n k m small ne h =
      if-lem P (is_failure os r.ret) (λ e. ap (λ b. b k) (disconnect-buf received) ∙ same)
        (λ e. same)
    where
      P : Bool × Mailbox S → Type 0
      P x = x.1.rsp_buf k ≡ m.rsp_buf k

      r : Receipt S
      r = recv os (store m.rsp_buf w 0) (4 * w) (size_of n) (time_of m.timeout_receive_ms) m.sys

      received : Mailbox S
      received = record m { rsp_buf = r.buf; sys = r.sys }

      size : size_of n ≡ n
      size = ground arith

      same : r.buf k ≡ m.rsp_buf k
      same =
          recv-elsewhere (store m.rsp_buf w 0) (4 * w) (size_of n) k (time_of m.timeout_receive_ms)
            m.sys (subst (λ x. IsApart (4 * w) x k) (sym size) h)
          ∙ ground arith

  -- What a receipt at word `w` leaves of the fields, and of the word when it succeeds.
  abbrev pub IsReceipt : ℕ → Mailbox S → Bool × Mailbox S → Type 0
  IsReceipt w m x =
      (x.1.max_num_bytes_rsp ≡ m.max_num_bytes_rsp)
      × (x.1.num_bytes_rsp ≡ m.num_bytes_rsp)
      × ((x.0 ≡ false) ⊎ ((x.0 ≡ true) × (x.1.rsp_buf w ≢ 0) × (x.1.rsp_buf w < 2 ^ 32)))

  disconnect-Receipt :
      (w : ℕ) (m n : Mailbox S)
      → n.max_num_bytes_rsp ≡ m.max_num_bytes_rsp
      → n.num_bytes_rsp ≡ m.num_bytes_rsp
      → IsReceipt w m (false, socket_disconnect os n)
  unfolding socket_disconnect
  disconnect-Receipt w m n max num =
      if-lem (λ (x : Mailbox S). IsReceipt w m (false, x)) n.connected (λ h. (max, num, inl refl))
        (λ h. (max, num, inl refl))

  pub socket_receive-Receipt : (w n : ℕ) (m : Mailbox S) → IsReceipt w m (socket_receive os w n m)
  unfolding socket_receive
  socket_receive-Receipt w n m =
      if-lem (IsReceipt w m) (is_failure os r.ret) (λ e. disconnect-Receipt w m received refl refl)
        (λ e. elim (Bool-cases (received.rsp_buf w != 0)) [
          | inl t ↦ (refl, refl, inr (t, ground arith, word))
          | inr f ↦ (refl, refl, inl f)
        ])
    where
      r : Receipt S
      r = recv os (store m.rsp_buf w 0) (4 * w) (size_of n) (time_of m.timeout_receive_ms) m.sys

      received : Mailbox S
      received = record m { rsp_buf = r.buf; sys = r.sys }

      start : store m.rsp_buf w 0 w < 2 ^ 32
      start = ground arith

      word : r.buf w < 2 ^ 32
      word =
          recv-word os (store m.rsp_buf w 0) (4 * w) (size_of n) w (time_of m.timeout_receive_ms)
            m.sys start
