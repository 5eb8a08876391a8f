-- ===== src/Rw/Opened.antt =====
-- The splitting of an access keeps the PL2 packets within their limit
-- (src/tas_client/tas_pkt_handler_rw.cpp).
use tas_client_api.Prelude.{
  ℕ, zero, suc, ◌+◌, ◌-◌, ◌*◌, ◌/◌, ◌%◌, ◌^◌, ◌≤◌, ◌<◌, ◌≡◌, ◌⊎◌, refl, sym, subst, true, false,
  arith, Bool-cases, inl, inr, if-lem, ltb, leb, ◌==◌, ◌&&◌, leb→le, ltb→lt, lt→ltb, Option, some,
  ℕ_discrete,
}
use tas_client_api.Pkt.Size
use tas_client_api.Rw.State.{Rw, pkt_finalize}
use tas_client_api.Rw.Split.{
  Cursor, Steps, take_bytes, align_step, tail_step, blk_round, blk_step, blk_loop, blk_part,
  head_part, tail_part, split,
}
use tas_client_api.Rw.StepsIf.{IsBlock, StepsLaws}
use tas_client_api.Rw.Open.{IsOpen, pkt_finalize-IsOpen}
use tas_client_api.Rw.Opening.{IsOpen-room, IsOpen-weaken}

-- What the packets of an access cost: 20 words for each beside its bytes.
abbrev pub KeepsOpen : Steps → ℕ → Type 0
KeepsOpen s max =
    (b : ℕ) (r : Rw) (a n d : ℕ)
    → n ≤ 1024
    → IsOpen max (b + 20 + n) r
    → IsOpen max b (s.add r a n d)

module _ (s : Steps) (am m type max x : ℕ) (law : StepsLaws s am m type)
    (keeps : KeepsOpen s max) where
  -- 24 words for each byte that is left are enough, and `x` more are for what comes then.
  abbrev pub Opens : Cursor → Type 0
  Opens c = (c.nb < 2 ^ 32) × IsOpen max (24 * c.nb + 4 + x) c.rw

  take_bytes-Opens :
      (c : Cursor) (k : ℕ) → 0 < k → k ≤ 8 → k ≤ c.nb → Opens c → Opens (take_bytes s k c)
  unfolding take_bytes
  take_bytes-Opens c k pos most le (small, o) = (
    omega arith,
    keeps (24 * (take_bytes s k c).nb + 4 + x) c.rw c.a k c.d (omega arith)
        (IsOpen-weaken max (24 * c.nb + 4 + x) _ c.rw (omega arith) o),
  )

  align_step-Opens : (c : Cursor) (k : ℕ) → 0 < k → k ≤ 8 → Opens c → Opens (align_step s k c)
  unfolding align_step
  align_step-Opens c k pos most o =
      if-lem Opens (leb k c.nb && c.a / k % 2 == 1)
        (λ h. take_bytes-Opens c k pos most (ground arith) o) (λ h. o)

  tail_step-Opens : (c : Cursor) (k : ℕ) → 0 < k → k ≤ 8 → Opens c → Opens (tail_step s k c)
  unfolding tail_step
  tail_step-Opens c k pos most o =
      if-lem Opens (leb k c.nb) (λ h. take_bytes-Opens c k pos most (leb→le _ _ h) o) (λ h. o)

  head_part-Opens : (c : Cursor) → Opens c → Opens (head_part s c)
  unfolding head_part
  head_part-Opens c o = align_step-Opens _ 4 (omega arith) (omega arith) (
      align_step-Opens _ 2 (omega arith) (omega arith)
        (align_step-Opens c 1 (omega arith) (omega arith) o))

  align_step-le : (c : Cursor) (k : ℕ) → k ≤ 8 → c.nb < 2 ^ 32 → (align_step s k c).nb ≤ c.nb
  unfolding align_step
  align_step-le c k most small =
      if-lem (λ (x : Cursor). x.nb ≤ c.nb) (leb k c.nb && c.a / k % 2 == 1) (λ h. ground arith)
        (λ h. omega arith)

  head_part-le : (c : Cursor) → Opens c → (head_part s c).nb ≤ c.nb
  unfolding head_part
  head_part-le c o =
      let o1 = align_step-Opens c 1 (omega arith) (omega arith) o in
      let o2 = align_step-Opens (align_step s 1 c) 2 (omega arith) (omega arith) o1 in
      omega (
        arith,
        align_step-le c 1 (omega arith) o.0,
        align_step-le (align_step s 1 c) 2 (omega arith) o1.0,
        align_step-le (align_step s 2 (align_step s 1 c)) 4 (omega arith) o2.0,
      )

  tail_part-Opens : (c : Cursor) → Opens c → Opens (tail_part s c)
  unfolding tail_part
  tail_part-Opens c o = tail_step-Opens _ 1 (omega arith) (omega arith) (
      tail_step-Opens _ 2 (omega arith) (omega arith)
        (tail_step-Opens c 4 (omega arith) (omega arith) o))

  blk_round-IsOpen :
      (b : ℕ) (c : Cursor) (n : ℕ)
      → n ≤ 1024
      → IsOpen max (b + 24 + n) c.rw
      → IsOpen max b (blk_round s n c).rw
  unfolding blk_round
  blk_round-IsOpen b c n most o =
      let added =
        keeps (b + 4) c.rw c.a n c.d most
          (IsOpen-weaken max (b + 24 + n) (b + 4 + 20 + n) c.rw (omega arith) o) in
      if-lem (IsOpen max b) (ltb n Size.pl0_data_blk_size && ltb n (c.nb / 8 * 8))
        (λ h. pkt_finalize-IsOpen max b (s.add c.rw c.a n c.d) added)
        (λ h. IsOpen-weaken max (b + 4) b _ (omega arith) added)

  blk_round-left : (c : Cursor) (n : ℕ) → n ≤ c.nb → c.nb < 2 ^ 32 → (blk_round s n c).nb ≡ c.nb - n
  unfolding blk_round
  blk_round-left c n le small = omega arith

  -- A round with no room for a block closes the packet.
  blk_round-closes : (c : Cursor) → 8 ≤ c.nb → (blk_round s 0 c).rw ≡ pkt_finalize true c.rw
  unfolding blk_round
  blk_round-closes c le =
      let test : (ltb 0 Size.pl0_data_blk_size && ltb 0 (c.nb / 8 * 8)) ≡ true = ground arith in
      rw (test, law.adds_nothing c.rw c.a c.d) refl

  -- The loop returns, with less than 8 bytes left.
  abbrev Loops : Option Cursor → Type 0
  Loops o = (c : Cursor) × (o ≡ some c) × Opens c × (c.nb < 8)

  loop_on :
      (fuel : ℕ) (c : Cursor)
      → ltb 7 (blk_step s c).nb ≡ true
      → Loops (blk_loop s fuel (blk_step s c))
      → Loops (blk_loop s (suc fuel) c)
  unfolding blk_loop
  loop_on fuel c e h = rw e h

  loop_out :
      (fuel : ℕ) (c : Cursor)
      → ltb 7 (blk_step s c).nb ≡ false
      → Opens (blk_step s c)
      → Loops (blk_loop s (suc fuel) c)
  unfolding blk_loop
  loop_out fuel c e o = rw e (blk_step s c, refl, o, ground arith)

  no_block :
      (c : Cursor)
      → s.blk_size c.rw c.nb c.a ≡ 0
      → 8 ≤ c.nb
      → c.nb < 2 ^ 32
      → ((blk_step s c).rw ≡ pkt_finalize true c.rw) × ((blk_step s c).nb ≡ c.nb)
  unfolding blk_step
  no_block c e le small =
      rw e (blk_round-closes c le, omega (arith, blk_round-left c 0 (omega arith) small))

  a_block :
      (b : ℕ) (c : Cursor)
      → IsBlock (s.blk_size c.rw c.nb c.a) c.nb
      → c.nb < 2 ^ 32
      → IsOpen max (b + 24 + s.blk_size c.rw c.nb c.a) c.rw
      → IsOpen max b (blk_step s c).rw × ((blk_step s c).nb ≡ c.nb - s.blk_size c.rw c.nb c.a)
  unfolding blk_step
  a_block b c (le, most, words) small o = (
    blk_round-IsOpen b c (s.blk_size c.rw c.nb c.a) most o,
    blk_round-left c (s.blk_size c.rw c.nb c.a) le small,
  )

  blk_loop-Loops :
      (fuel : ℕ) (c : Cursor)
      → 8 ≤ c.nb
      → c.nb < 2 ^ 32
      → IsOpen max (24 * c.nb + x) c.rw
      → ((c.nb + 1 < fuel) × (c.rw.rq_buf_wi + (24 * c.nb + 4 + x) < 2 ^ 29))
        ⊎ ((8 ≤ s.blk_size c.rw c.nb c.a) × (c.nb < fuel))
      → Loops (blk_loop s fuel c)
  blk_loop-Loops zero c le small o enough = absurd (omega arith)
  blk_loop-Loops (suc fuel) c le small o enough =
      let block = law.block c.rw c.nb c.a o.conf in
      elim (ℕ_discrete (s.blk_size c.rw c.nb c.a) 0) [
        | yes e ↦
            let (closed, left) = no_block c e le small in
            let wide : IsOpen max (24 * c.nb + x + 4) c.rw =
              IsOpen-room max (24 * c.nb + x) (24 * c.nb + x + 4) c.rw (omega arith) o in
            loop_on fuel c (lt→ltb 7 _ (omega arith)) (
              blk_loop-Loops fuel (blk_step s c) (omega arith) (omega arith)
                (subst (λ y. IsOpen max (24 * (blk_step s c).nb + x) y) (sym closed)
                  (IsOpen-weaken max (24 * c.nb + x) (24 * (blk_step s c).nb + x) _ (omega arith)
                    (pkt_finalize-IsOpen max (24 * c.nb + x) c.rw wide)))
                (inr (
                  subst (λ y. 8 ≤ s.blk_size y (blk_step s c).nb (blk_step s c).a) (sym closed)
                      (law.fresh c.rw (blk_step s c).nb (blk_step s c).a o.conf (omega arith)),
                  omega arith,
                )))
        | no ne ↦
            let large : 8 ≤ s.blk_size c.rw c.nb c.a = omega (arith, block) in
            let left = c.nb - s.blk_size c.rw c.nb c.a in
            let (o', e) =
              a_block (24 * left + 4 + x) c block small
                (IsOpen-weaken max (24 * c.nb + x) _ c.rw (omega (arith, block)) o) in
            elim (Bool-cases (ltb 7 (blk_step s c).nb)) [
              | inl more ↦ loop_on fuel c more (
                  blk_loop-Loops fuel (blk_step s c) (omega (arith, ltb→lt _ _ more)) (omega arith)
                    (IsOpen-weaken max (24 * left + 4 + x) _ _ (omega arith) o')
                    (inl (omega (arith, block), omega (arith, o'.room))))
              | inr out ↦
                  loop_out fuel c out
                    (omega arith, IsOpen-weaken max (24 * left + 4 + x) _ _ (omega arith) o')
            ]
      ]

  blk_part-Loops : (fuel : ℕ) (c : Cursor) → Opens c → c.nb + 1 < fuel → Loops (blk_part s fuel c)
  unfolding blk_part
  blk_part-Loops fuel c (small, o) enough =
      if-lem Loops (leb 8 c.nb)
        (λ h.
          blk_loop-Loops fuel c (leb→le _ _ h) small
            (IsOpen-weaken max (24 * c.nb + 4 + x) (24 * c.nb + x) c.rw (omega arith) o)
            (inl (enough, o.room)))
        (λ h. (c, refl, (small, o), ground arith))

  -- With fuel for every byte the splitting ends, and the packets keep within their limit.
  pub split-Opens :
      (fuel : ℕ) (c : Cursor)
      → Opens c
      → c.nb + 1 < fuel
      → (c' : Cursor) × (split s fuel c ≡ some c') × Opens c'
  unfolding split
  split-Opens fuel c o enough =
      let head = head_part-Opens c o in
      let (c', e, o', lt) =
        blk_part-Loops fuel (head_part s c) head (omega (arith, head_part-le c o)) in
      (tail_part s c', rw e refl, tail_part-Opens c' o')
