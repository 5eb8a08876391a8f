-- ===== src/Rw/Decoded.antt =====
-- What the packets that mPktAdd_Rd, mPktAdd_Wr and mPktAdd_Fill write say, as a server reads them
-- (src/tas_client/tas_pkt_handler_rw.cpp).
use tas_client_api.Prelude.{
  ℕ, ◌+◌, ◌*◌, ◌/◌, ◌%◌, ◌^◌, ◌≤◌, ◌<◌, ◌≡◌, ◌≢◌, ◌⊎◌, inl, inr, ap, ◌∙◌, true, false, Mem, arith,
  byte0, byte1, half1, get_byte, ◌==◌, if◌then◌else◌, leb, ltb, u32, memcpy_to_words, memcpy-copies,
  memcpy-words_below, Bool-cases,
}
use tas_client_api.Pkt.Cmd
use tas_client_api.Rw.State.{Rw}
use tas_client_api.Rw.Add.{write_rd, write_wr, write_fill, blk_wl}

-- The bytes of a block whose number of words stands in a byte, 0 for 256.
abbrev blk_bytes : ℕ → ℕ
blk_bytes wl = if wl % 256 == 0 then 1024 else 4 * (wl % 256)

-- The bytes that the read at word `w` asks for.
abbrev rd_size : Mem ℕ → ℕ → ℕ
rd_size buf w =
    let cmd = byte1 (buf w) in
    if cmd == Cmd.pl0_rd8
    then 1
    else if cmd == Cmd.pl0_rd16
    then 2
    else if cmd == Cmd.pl0_rd32
    then 4
    else if cmd == Cmd.pl0_rd64
    then 8
    else if cmd == Cmd.pl0_rdblk
    then blk_bytes (buf (w + 1))
    else 0

-- The bytes that the write with this header has.
abbrev wr_size : ℕ → ℕ
wr_size header =
    let cmd = byte1 header in
    if cmd == Cmd.pl0_wr8
    then 1
    else if cmd == Cmd.pl0_wr16
    then 2
    else if cmd == Cmd.pl0_wr32
    then 4
    else if cmd == Cmd.pl0_wr64
    then 8
    else if cmd == Cmd.pl0_wrblk
    then blk_bytes (byte0 header)
    else 0

-- The read packet at word `w`, of `n` bytes at the lower half of the address `a`.
abbrev pub IsRead : Mem ℕ → ℕ → ℕ → ℕ → Type 0
IsRead buf w a n = (rd_size buf w ≡ n) × (half1 (buf w) ≡ a % 2 ^ 16)

-- The write packet, with the `n` bytes at `d` of the caller's memory.
abbrev pub IsWrite : Mem ℕ → Mem ℕ → ℕ → ℕ → ℕ → ℕ → ℕ → Type 0
IsWrite host buf w a n d k =
    (wr_size (buf w) ≡ n)
    × (half1 (buf w) ≡ a % 2 ^ 16)
    × (get_byte buf (4 * (w + 1) + k) ≡ host (d + k) % 256)

-- The fill packet, with its 64 bit value.
abbrev pub IsFill : Mem ℕ → ℕ → ℕ → ℕ → ℕ → Type 0
IsFill buf w a n v =
    (byte1 (buf w) ≡ Cmd.pl0_fill)
    × (half1 (buf w) ≡ a % 2 ^ 16)
    × (blk_bytes (buf (w + 1)) ≡ n)
    × (buf (w + 2) + buf (w + 3) * 2 ^ 32 ≡ v)

-- A size of a PL0 transaction.
abbrev pub IsSize : ℕ → Type 0
IsSize n = (n ≡ 1) ⊎ (n ≡ 2) ⊎ (n ≡ 4) ⊎ ((8 ≤ n) × (n ≤ 1024) × (n % 8 ≡ 0))

pub write_rd-IsRead :
    (r : Rw) (a n : ℕ)
    → IsSize n
    → r.rq_buf_wi + 300 < 2 ^ 29
    → IsRead (write_rd r a n).rq_buf r.rq_buf_wi a n
unfolding write_rd
write_rd-IsRead r a n (inl e) room = rw e (ground arith)
write_rd-IsRead r a n (inr (inl e)) room = rw e (ground arith)
write_rd-IsRead r a n (inr (inr (inl e))) room = rw e (ground arith)
write_rd-IsRead r a n (inr (inr (inr (least, most, words)))) room = ground arith

pub write_fill-IsFill :
    (r : Rw) (a n v : ℕ)
    → 8 ≤ n
    → n ≤ 1024
    → n % 8 ≡ 0
    → v < 2 ^ 64
    → r.rq_buf_wi + 300 < 2 ^ 29
    → IsFill (write_fill r a n v).rq_buf r.rq_buf_wi a n v
unfolding write_fill
write_fill-IsFill r a n v least most words small room =
    (ground arith, ground arith, ground arith, ground arith)

copied-IsWrite :
    (host m : Mem ℕ) (w a n d k : ℕ)
    → wr_size (m w) ≡ n
    → half1 (m w) ≡ a % 2 ^ 16
    → k < n
    → IsWrite host (memcpy_to_words host d n m (4 * (w + 1))) w a n d k
copied-IsWrite host m w a n d k size half less =
    let same : memcpy_to_words host d n m (4 * (w + 1)) w ≡ m w =
      memcpy-words_below host d n m (4 * (w + 1)) w (omega arith) in
    (
      ap wr_size same ∙ size,
      ap (λ x. half1 x) same ∙ half,
      memcpy-copies host d n m (4 * (w + 1)) k less,
    )

pub write_wr-IsWrite :
    (host : Mem ℕ) (r : Rw) (a n d k : ℕ)
    → IsSize n
    → d ≢ 0
    → k < n
    → r.rq_buf_wi + 300 < r.rq_wi_max
    → r.rq_wi_max < 2 ^ 29
    → IsWrite host (write_wr host r a n d).rq_buf r.rq_buf_wi a n d k
unfolding write_wr
write_wr-IsWrite host r a n d k size there less room max =
    let w : ℕ = r.rq_buf_wi in
    let next : u32 (w + 1) ≡ w + 1 = omega (arith, room, max) in
    let some_buf : (d == 0) ≡ false = ground arith in
    elim size [
      | inl e ↦
          rw (e, some_buf, next)
            (copied-IsWrite host _ w a 1 d k (ground arith) (ground arith) (omega (arith, e, less)))
      | inr (inl e) ↦
          rw (e, some_buf, next)
            (copied-IsWrite host _ w a 2 d k (ground arith) (ground arith) (omega (arith, e, less)))
      | inr (inr (inl e)) ↦
          rw (e, some_buf, next)
            (copied-IsWrite host _ w a 4 d k (ground arith) (ground arith) (omega (arith, e, less)))
      | inr (inr (inr (least, most, words))) ↦ elim (Bool-cases (leb n 8)) [
        | inl e ↦
            let eight : n ≡ 8 = ground arith in
            rw (eight, some_buf, next)
              (copied-IsWrite host _ w a 8 d k (ground arith) (ground arith)
                (omega (arith, eight, less)))
        | inr e ↦
            let inside : ltb (u32 (w + 1 + blk_wl n)) r.rq_wi_max ≡ true = ground arith in
            rw (e, inside, next)
              (copied-IsWrite host _ w a n d k (ground arith) (ground arith) less)
      ]
    ]

-- The words of a packet.
abbrev pub rd_words : ℕ → ℕ
rd_words n = if leb n 8 then 1 else 2

abbrev pub wr_words : ℕ → ℕ
wr_words n = 1 + (n + 3) / 4

pub write_rd-end :
    (r : Rw) (a n : ℕ)
    → r.rq_buf_wi + 300 < 2 ^ 29
    → (write_rd r a n).rq_buf_wi ≡ r.rq_buf_wi + rd_words n
unfolding write_rd
write_rd-end r a n room = ground arith

pub write_wr-end :
    (host : Mem ℕ) (r : Rw) (a n d : ℕ)
    → IsSize n
    → r.rq_buf_wi + 300 < 2 ^ 29
    → (write_wr host r a n d).rq_buf_wi ≡ r.rq_buf_wi + wr_words n
unfolding write_wr
write_wr-end host r a n d size room = ground arith
