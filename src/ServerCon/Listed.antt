-- ===== src/ServerCon/Listed.antt =====
-- What `set_pkt_rsp_get_targets` of CTasPktHandlerServerCon leaves
-- (src/tas_client/tas_pkt_handler_server_con.cpp).
use tas_client_api.Prelude.{
  ℕ, ◌+◌, ◌*◌, ◌/◌, ◌≤◌, ◌<◌, ◌≡◌, refl, ◌⊎◌, inl, inr, arith, true, false, ◌||◌, not, Mem, ◌==◌,
  ◌!=◌, byte0, byte1, byte2, byte3, sub32, if-lem, if◌then◌else◌, ℕ_discrete, copy_words-here,
  copy_words-elsewhere,
}
use tas_client_api.Pkt.Cmd
use tas_client_api.Pkt.Err
use tas_client_api.ErrorInfo.{is_err, ErrorInfo, no_error}
use tas_client_api.Base.Errors.{err_connection_protocol}
use tas_client_api.ServerCon.Handler.{
  ServerCon, err_server_is_locked, num_target_max, target_info_size,
}
use tas_client_api.ServerCon.Targets.{
  lesser, note_num_target, Listing, no_listing, is_other_part, is_past_end, copy_targets,
  take_targets, check_targets, set_pkt_rsp_get_targets,
}

-- The targets of the packet stand in the list from the start index on, within its 64 entries; the
-- others are those of before. The length is that of the first packet.
pub record IsListed (pkt : Mem ℕ) (c : ServerCon) (r : Listing) : Type 0 where
  pub no_error : r.handler.base.ei ≡ no_error
  pub num : r.num ≡ r.handler.num_target
  pub num_now : r.num_now ≡ byte2 (pkt 2)
  pub start : byte1 (pkt 2) ≡ c.start_index
  pub total :
      ((c.start_index ≡ 0) × (r.num ≡ lesser (byte0 (pkt 2)) num_target_max))
      ⊎ ((0 < c.start_index) × (r.num ≡ c.num_target))
  pub room : c.start_index + r.num_now ≤ num_target_max
  pub here :
      (k : ℕ) → k < r.num_now * 19 → r.handler.target_info (c.start_index * 19 + k) ≡ pkt (3 + k)
  pub elsewhere :
      (k : ℕ)
      → (k < c.start_index * 19) ⊎ (c.start_index * 19 + r.num_now * 19 ≤ k)
      → r.handler.target_info k ≡ c.target_info k

-- Either an error is returned and noted, with nothing listed and the entries as they were; or the
-- targets are listed. The length of the list is at most 64.
abbrev pub IsOutcome : Mem ℕ → ServerCon → Listing → Type 0
IsOutcome pkt c r =
    (r.ret ≡ r.handler.base.ei.tas_err)
    × (r.handler.num_target ≤ num_target_max)
    × (((is_err r.ret ≡ true)
          × (r.num ≡ 0)
          × (r.num_now ≡ 0)
          × (r.handler.target_info ≡ c.target_info))
        ⊎ IsListed pkt c r)

-- A packet of the length that the header announces has at most 13 targets.
packet_room :
    (pkt : Mem ℕ)
    → (pkt 0 != 4 + 8 + byte2 (pkt 2) * target_info_size) ≡ false
    → (byte0 (pkt 1) != sub32 (pkt 0) 8 / 4) ≡ false
    → byte2 (pkt 2) ≤ 13
packet_room pkt len wl = ground arith

words : (n : ℕ) → n * target_info_size / 4 ≡ n * 19
words n = omega arith

-- The handler with a length of its list.
abbrev with_num : ServerCon → ℕ → ServerCon
with_num c num = record c { num_target = num }

take_targets-Outcome :
    (pkt : Mem ℕ) (c : ServerCon) (num : ℕ)
    → byte2 (pkt 2) ≤ 13
    → num ≤ num_target_max
    → (c.start_index ≡ 0) ⊎ (num ≡ c.num_target)
    → IsOutcome pkt c (take_targets pkt (with_num c num))
unfolding take_targets
take_targets-Outcome pkt c num most bounded same =
    if-lem P (is_other_part pkt c.start_index num num_target_max)
      (λ h. bad err_connection_protocol refl)
      (λ start.
        if-lem P (is_past_end pkt num) (λ h. bad err_connection_protocol refl)
          (λ rest.
            if-lem P (byte3 (pkt 1) == Err.pl_no_error)
              (λ ok. (
                refl,
                ground arith,
                inr (record {
                  no_error = refl;
                  num = refl;
                  num_now = refl;
                  start = ground arith;
                  total = total;
                  room = ground arith;
                  here = here;
                  elsewhere = elsewhere;
                }),
              ))
              (λ h. bad err_server_is_locked refl)))
  where
    P : Listing → Type 0
    P = IsOutcome pkt c

    bad : (ei : ErrorInfo) → is_err ei.tas_err ≡ true → P (no_listing ei (with_num c num))
    bad ei e = (refl, bounded, inl (e, refl, refl, refl))

    total :
        ((c.start_index ≡ 0)
          × ((note_num_target pkt (with_num c num)).num_target
              ≡ lesser (byte0 (pkt 2)) num_target_max))
        ⊎ ((0 < c.start_index) × ((note_num_target pkt (with_num c num)).num_target ≡ c.num_target))
    total = elim (ℕ_discrete c.start_index 0) [
      | yes e ↦ inl (e, ground arith)
      | no n ↦ inr (omega arith, ground arith)
    ]

    here :
        (k : ℕ)
        → k < byte2 (pkt 2) * 19
        → (copy_targets pkt c).target_info (c.start_index * 19 + k) ≡ pkt (3 + k)
    here k h =
        rw (words (byte2 (pkt 2)), words c.start_index)
          (copy_words-here pkt 3 (byte2 (pkt 2) * 19) c.target_info (c.start_index * 19) k h)

    elsewhere :
        (k : ℕ)
        → (k < c.start_index * 19) ⊎ (c.start_index * 19 + byte2 (pkt 2) * 19 ≤ k)
        → (copy_targets pkt c).target_info k ≡ c.target_info k
    elsewhere k h =
        rw (words (byte2 (pkt 2)), words c.start_index)
          (copy_words-elsewhere pkt 3 (byte2 (pkt 2) * 19) c.target_info (c.start_index * 19) k h)

check_targets-Outcome :
    (pkt : Mem ℕ) (c : ServerCon) (num : ℕ)
    → num ≤ num_target_max
    → (c.start_index ≡ 0) ⊎ (num ≡ c.num_target)
    → IsOutcome pkt c (check_targets pkt (with_num c num))
unfolding check_targets
check_targets-Outcome pkt c num bounded same =
    if-lem P (pkt 0 != 4 + 8 + byte2 (pkt 2) * target_info_size) (λ h. bad)
      (λ len.
        if-lem P (byte1 (pkt 1) != Cmd.pl1_get_targets || byte0 (pkt 1) != sub32 (pkt 0) 8 / 4)
          (λ h. bad)
          (λ head.
            if-lem P
              (not (byte3 (pkt 1) == Err.pl_no_error || byte3 (pkt 1) == Err.pl1_server_locked))
              (λ h. bad)
              (λ err.
                take_targets-Outcome pkt c num (packet_room pkt len (ground arith)) bounded same)))
  where
    P : Listing → Type 0
    P = IsOutcome pkt c

    bad : P (no_listing err_connection_protocol (with_num c num))
    bad = (refl, bounded, inl (refl, refl, refl, refl))

-- On every branch of `set_pkt_rsp_get_targets`, for a list of at most 64 targets, the code returned
-- is the one noted, and the length stays at most 64. Either it is an error, nothing is listed, and
-- the entries are as they were; or no error is noted, and the targets of the packet stand in the list
-- from the start index on, within its 64 entries, while all others are as they were; the length is
-- that of the first packet, at most 64.
pub set_pkt_rsp_get_targets-Outcome :
    (pkt : Mem ℕ) (c : ServerCon)
    → c.num_target ≤ num_target_max
    → IsOutcome pkt c (set_pkt_rsp_get_targets pkt c)
unfolding set_pkt_rsp_get_targets
set_pkt_rsp_get_targets-Outcome pkt c bounded =
    check_targets-Outcome pkt c (if c.start_index == 0 then 0 else c.num_target) (ground arith)
      (ground arith)
