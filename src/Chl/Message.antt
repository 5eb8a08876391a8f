-- ===== src/Chl/Message.antt =====
-- The way of a message through `get_pkt_send_msg` and `set_pkt_rcv_msg`
-- (src/tas_client/tas_pkt_handler_chl.cpp).
use tas_client_api.Prelude.{
  ℕ, ◌+◌, ◌*◌, ◌/◌, ◌%◌, ◌≤◌, ◌<◌, ◌≡◌, ◌≢◌, refl, sym, ◌∙◌, subst, true, false, ◌&&◌, ◌||◌, some,
  Mem, store, ltb, leb, ◌==◌, ◌!=◌, byte0, byte1, byte3, half1, bytes4, bytes2_half,
  memcpy_to_words, get_byte, arith, Bool-cases, inl, inr, memcpy-copies, memcpy-words_below,
}
use tas_client_api.Pkt.Cmd
use tas_client_api.Pkt.Err
use tas_client_api.ErrorInfo.{err_none}
use tas_client_api.Chl.Handler.{
  Chl, Received, cho_none, cho_init, deliver, take_msg, set_pkt_rcv_msg, get_pkt_send_msg,
  chl_num_max,
}

-- A device that answers with the message that it gets: the packet comes back with the header of a
-- message to the client.
abbrev pub echo : Mem ℕ → Mem ℕ
echo pkt = store pkt 1 (bytes4 1 Cmd.pl1_chl_msg_d2c 0 Err.pl_no_error)

-- A packet with a good header is delivered.
receives :
    (P : Mem ℕ) (chl cho len : ℕ) (c : Chl)
    → P 0 ≡ 12 + (len + 3) / 4 * 4
    → P 1 ≡ bytes4 1 Cmd.pl1_chl_msg_d2c 0 Err.pl_no_error
    → P 2 ≡ bytes2_half chl cho len
    → chl < 32
    → cho ≤ 1
    → 0 < len
    → len < 65536
    → set_pkt_rcv_msg P chl c ≡ deliver P c
unfolding set_pkt_rcv_msg take_msg
receives P chl cho len c e0 e1 e2 small opt pos bound =
    let reset : (P 0 == 12
          && byte1 (P 1) == Cmd.pl1_chl_msg_d2c
          && byte3 (P 1) == Err.pl1_dev_reset)
        ≡ false =
      ground arith in
    let short : ltb (P 0) 16 ≡ false = ground arith in
    let head : (byte1 (P 1) != Cmd.pl1_chl_msg_d2c || byte0 (P 1) != 1) ≡ false = ground arith in
    let no_reset : (byte3 (P 1) == Err.pl1_dev_reset) ≡ false = ground arith in
    let no_err : (byte3 (P 1) != Err.pl_no_error) ≡ false = ground arith in
    let range : (leb chl_num_max (byte0 (P 2)) || ltb cho_init (byte1 (P 2))) ≡ false =
      ground arith in
    let size : (P 0 != 4 + 8 + (half1 (P 2) + 3) / 4 * 4) ≡ false = ground arith in
    let mine : (byte0 (P 2) != chl) ≡ false = ground arith in
    rw (reset, short, head, no_reset, no_err, range, size, mine) refl

-- The words and the bytes of the packet that comes back, when the message was copied to word `w0` of
-- a buffer that holds `H`.
module _ (host H : Mem ℕ) (msg n w0 : ℕ) (past : 3 ≤ w0) where
  abbrev back : Mem ℕ
  back = echo (memcpy_to_words host msg n H (4 * w0))

  back-word : (w : ℕ) → w < w0 → w ≢ 1 → back w ≡ H w
  back-word w lt ne =
      let other : (1 == w) ≡ false = ground arith in
      rw other (memcpy-words_below host msg n H (4 * w0) w (omega arith))

  back-byte : (k : ℕ) → k < n → get_byte back (4 * w0 + k) ≡ host (msg + k) % 256
  back-byte k lt =
      let other : (1 == (4 * w0 + k) / 4) ≡ false = ground arith in
      rw other (memcpy-copies host msg n H (4 * w0) k lt)

-- What arrives: the message of `n` bytes at `msg`, with its word `init`.
abbrev pub IsArrived : Mem ℕ → ℕ → ℕ → ℕ → ℕ → Mem ℕ → Received → Type 0
IsArrived host msg n init k pkt got =
    (got.ret ≡ err_none)
    × (got.msg_length ≡ n)
    × (got.init ≡ init)
    × (w : ℕ) × (got.msg ≡ some w)
    × (get_byte pkt (4 * w + k) ≡ host (msg + k) % 256)

-- Without the word `init`.
arrives :
    (host H : Mem ℕ) (chl msg n init k : ℕ) (c' : Chl)
    → 0 ≡ init
    → chl < 32
    → n ≤ 252
    → k < n
    → H 0 ≡ 12 + (n + 3) / 4 * 4
    → H 2 ≡ bytes2_half chl cho_none n
    → IsArrived host msg n init k
        (back host H msg n 3 (omega arith))
        (set_pkt_rcv_msg (back host H msg n 3 (omega arith)) chl c')
unfolding deliver
arrives host H chl msg n init k c' zero_init small le lt h0 h2 =
    subst (IsArrived host msg n init k P)
      (sym (
        receives P chl cho_none n c' (word 0 (omega arith) (omega arith) ∙ h0) refl
          (word 2 (omega arith) (omega arith) ∙ h2) small (omega arith) (omega arith)
          (omega arith)))
      (rw plain (
        refl,
        ground (arith, two),
        zero_init,
        3,
        refl,
        back-byte host H msg n 3 (omega arith) k lt,
      ))
  where
    P : Mem ℕ
    P = back host H msg n 3 (omega arith)

    word : (w : ℕ) → w < 3 → w ≢ 1 → P w ≡ H w
    word = back-word host H msg n 3 (omega arith)

    two : P 2 ≡ bytes2_half chl cho_none n
    two = word 2 (omega arith) (omega arith) ∙ h2

    plain : (byte1 (P 2) == cho_init) ≡ false
    plain = ground (arith, two)

-- With it.
arrives_init :
    (host H : Mem ℕ) (chl msg n init k : ℕ) (c' : Chl)
    → chl < 32
    → n ≤ 252
    → k < n
    → H 0 ≡ 12 + (n + 4 + 3) / 4 * 4
    → H 2 ≡ bytes2_half chl cho_init (n + 4)
    → H 3 ≡ init
    → IsArrived host msg n init k
        (back host H msg n 4 (omega arith))
        (set_pkt_rcv_msg (back host H msg n 4 (omega arith)) chl c')
unfolding deliver
arrives_init host H chl msg n init k c' small le lt h0 h2 h3 =
    subst (IsArrived host msg n init k P)
      (sym (
        receives P chl cho_init (n + 4) c' (word 0 (omega arith) (omega arith) ∙ h0) refl two small
          (omega arith) (omega arith) (omega arith)))
      (rw first (
        refl,
        ground (arith, two),
        word 3 (omega arith) (omega arith) ∙ h3,
        4,
        refl,
        back-byte host H msg n 4 (omega arith) k lt,
      ))
  where
    P : Mem ℕ
    P = back host H msg n 4 (omega arith)

    word : (w : ℕ) → w < 4 → w ≢ 1 → P w ≡ H w
    word = back-word host H msg n 4 (omega arith)

    two : P 2 ≡ bytes2_half chl cho_init (n + 4)
    two = word 2 (omega arith) (omega arith) ∙ h2

    first : (byte1 (P 2) == cho_init) ≡ true
    first = ground (arith, two)

-- A message of 1 to 252 bytes that `get_pkt_send_msg` packs for a channel below 32, and that a device
-- sends back on the same channel, is unpacked by `set_pkt_rcv_msg` as it was: without error, with its
-- length, its init word, and every byte `k` of it, at the pointer returned.
pub set_pkt_rcv_msg-get_pkt_send_msg :
    (host : Mem ℕ) (chl msg n init k : ℕ) (c c' : Chl)
    → chl < 32
    → n ≤ 252
    → k < n
    → IsArrived host msg n init k
        (echo (get_pkt_send_msg host chl msg n init c).rq_buf)
        (set_pkt_rcv_msg (echo (get_pkt_send_msg host chl msg n init c).rq_buf) chl c')
unfolding get_pkt_send_msg deliver
set_pkt_rcv_msg-get_pkt_send_msg host chl msg n init k c c' small le lt =
    elim (Bool-cases (init != 0)) [
      | inl e ↦
          rw e
            (arrives_init host _ chl msg n init k c' small le lt (omega arith) (ground arith) refl)
      | inr e ↦ rw e (
          arrives host _ chl msg n init k c' (ground arith) small le lt (omega arith)
            (ground arith))
    ]
