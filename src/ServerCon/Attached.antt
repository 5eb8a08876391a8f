-- ===== src/ServerCon/Attached.antt =====
-- What `set_pkt_rsp_get_target_clients` of CTasPktHandlerServerCon leaves
-- (src/tas_client/tas_pkt_handler_server_con.cpp).
use tas_client_api.Prelude.{
  ℕ, ◌+◌, ◌*◌, ◌/◌, ◌≤◌, ◌<◌, ◌≡◌, refl, ap, ◌∙◌, ◌⊎◌, inl, inr, arith, true, false, ◌||◌, not, Mem,
  ◌==◌, ◌!=◌, byte0, byte1, byte2, byte3, sub32, if-lem, copy_words, copy_words-here,
  copy_words-elsewhere,
}
use tas_client_api.Pkt.Cmd
use tas_client_api.Pkt.Err
use tas_client_api.ErrorInfo.{err_fn_param, is_err, ErrorInfo, error, no_error}
use tas_client_api.Base.Errors.{err_connection_protocol}
use tas_client_api.ServerCon.Handler.{
  ServerCon, err_server_is_locked, num_target_client_max, target_client_info_size,
}
use tas_client_api.ServerCon.Targets.{Listing, no_listing, is_other_part, is_past_end}
use tas_client_api.ServerCon.Clients.{
  rsp_get_clients_size, note_session, copy_clients, list_clients, take_clients, check_clients,
  forget_clients, set_pkt_rsp_get_target_clients,
}

-- The clients of the packet stand at the beginning of the list, within its 32 entries; the others
-- are those of before.
pub record IsAttached (pkt : Mem ℕ) (c : ServerCon) (r : Listing) : Type 0 where
  pub no_error : r.handler.base.ei ≡ no_error
  pub room : byte2 (pkt 2) ≤ num_target_client_max
  pub here : (k : ℕ) → k < byte2 (pkt 2) * 20 → r.handler.target_client_info k ≡ pkt (9 + k)
  pub elsewhere :
      (k : ℕ) → byte2 (pkt 2) * 20 ≤ k → r.handler.target_client_info k ≡ c.target_client_info k

-- The numbers that the call sets are 0, and the length of the list is at most 32. Either an error is
-- returned and noted, with the entries as they were; or the clients are listed.
abbrev pub IsOutcome : Mem ℕ → ServerCon → Listing → Type 0
IsOutcome pkt c r =
    (r.ret ≡ r.handler.base.ei.tas_err)
    × (r.num ≡ 0)
    × (r.num_now ≡ 0)
    × (r.handler.num_target_client ≤ num_target_client_max)
    × (((is_err r.ret ≡ true) × (r.handler.target_client_info ≡ c.target_client_info))
        ⊎ IsAttached pkt c r)

-- A packet of the length that the header announces has at most 12 clients.
packet_room :
    (pkt : Mem ℕ)
    → (pkt 0 != 4 + rsp_get_clients_size + byte2 (pkt 2) * target_client_info_size) ≡ false
    → (byte0 (pkt 1) != sub32 (pkt 0) 8 / 4) ≡ false
    → byte2 (pkt 2) ≤ 12
packet_room pkt len wl = ground arith

words : (n : ℕ) → n * target_client_info_size / 4 ≡ n * 20
words n = omega arith

-- A handler `d` that has the entries of `c` and a length within the list.
abbrev IsLike : ServerCon → ServerCon → Type 0
IsLike c d =
    (d.target_client_info ≡ c.target_client_info) × (d.num_target_client ≤ num_target_client_max)

note_session-Like : (pkt : Mem ℕ) (c d : ServerCon) → IsLike c d → IsLike c (note_session pkt d)
unfolding note_session
note_session-Like pkt c d (same, bounded) =
    if-lem (λ (e : ServerCon). IsLike c e) (d.start_index == 0) (λ h. (same, ground arith))
      (λ h. (same, bounded))

forget_clients-Like :
    (c : ServerCon) → c.num_target_client ≤ num_target_client_max → IsLike c (forget_clients c)
forget_clients-Like c bounded =
    if-lem (λ (e : ServerCon). IsLike c e) (c.start_index == 0) (λ h. (refl, omega arith))
      (λ h. (refl, bounded))

turned_down :
    (pkt : Mem ℕ) (c d : ServerCon) (ei : ErrorInfo)
    → IsLike c d
    → is_err ei.tas_err ≡ true
    → IsOutcome pkt c (no_listing ei d)
turned_down pkt c d ei (same, bounded) e = (refl, refl, refl, bounded, inl (e, same))

list_clients-Outcome :
    (pkt : Mem ℕ) (c d : ServerCon)
    → IsLike c d
    → byte2 (pkt 2) ≤ 12
    → IsOutcome pkt c (list_clients (copy_clients pkt d))
list_clients-Outcome pkt c d (same, bounded) most = (
  refl,
  refl,
  refl,
  bounded,
  inr (record {
    no_error = refl;
    room = omega arith;
    here = λ k. λ h. rw (words (byte2 (pkt 2))) (
        ap (copy_words pkt 9 (byte2 (pkt 2) * 20) d.target_client_info 0) (omega arith)
        ∙ copy_words-here pkt 9 (byte2 (pkt 2) * 20) d.target_client_info 0 k h);
    elsewhere = λ k. λ h. rw (words (byte2 (pkt 2))) (
        copy_words-elsewhere pkt 9 (byte2 (pkt 2) * 20) d.target_client_info 0 k (inr (omega arith))
        ∙ ap (λ m. m k) same);
  }),
)

take_clients-Outcome :
    (pkt : Mem ℕ) (c d : ServerCon)
    → byte2 (pkt 2) ≤ 12
    → IsLike c d
    → IsOutcome pkt c (take_clients pkt d)
unfolding take_clients
take_clients-Outcome pkt c d most like =
    if-lem P (is_other_part pkt d.start_index d.num_target_client num_target_client_max)
      (λ h. bad err_connection_protocol refl)
      (λ start.
        if-lem P (is_past_end pkt d.num_target_client) (λ h. bad err_connection_protocol refl)
          (λ rest.
            if-lem P (byte3 (pkt 1) == Err.pl_no_error)
              (λ ok.
                list_clients-Outcome pkt c (note_session pkt d) (note_session-Like pkt c d like)
                  most)
              (λ h.
                if-lem P (byte3 (pkt 1) == Err.pl_param)
                  (λ e. bad (error "ERROR: Target does not exist" err_fn_param) refl)
                  (λ e. bad err_server_is_locked refl))))
  where
    P : Listing → Type 0
    P = IsOutcome pkt c

    bad : (ei : ErrorInfo) → is_err ei.tas_err ≡ true → P (no_listing ei d)
    bad ei e = turned_down pkt c d ei like e

check_clients-Outcome :
    (pkt : Mem ℕ) (c d : ServerCon) → IsLike c d → IsOutcome pkt c (check_clients pkt d)
unfolding check_clients
check_clients-Outcome pkt c d like =
    if-lem P (pkt 0 != 4 + rsp_get_clients_size + byte2 (pkt 2) * target_client_info_size)
      (λ h. bad)
      (λ len.
        if-lem P (byte1 (pkt 1) != Cmd.pl1_get_clients || byte0 (pkt 1) != sub32 (pkt 0) 8 / 4)
          (λ h. bad)
          (λ head.
            if-lem P
              (not (
                byte3 (pkt 1) == Err.pl_no_error
                || byte3 (pkt 1) == Err.pl_param
                || byte3 (pkt 1) == Err.pl1_server_locked))
              (λ h. bad)
              (λ err. take_clients-Outcome pkt c d (packet_room pkt len (ground arith)) like)))
  where
    P : Listing → Type 0
    P = IsOutcome pkt c

    bad : P (no_listing err_connection_protocol d)
    bad = turned_down pkt c d err_connection_protocol like refl

-- On every branch of `set_pkt_rsp_get_target_clients`, for a list of at most 32 clients, the code
-- returned is the one noted, the numbers that it sets are 0, and the length stays at most 32. Either
-- it is an error, and the entries are as they were; or no error is noted, and the clients of the
-- packet stand at the beginning of the list, whatever the start index, while all others are as they
-- were.
pub set_pkt_rsp_get_target_clients-Outcome :
    (pkt : Mem ℕ) (c : ServerCon)
    → c.num_target_client ≤ num_target_client_max
    → IsOutcome pkt c (set_pkt_rsp_get_target_clients pkt c)
unfolding set_pkt_rsp_get_target_clients
set_pkt_rsp_get_target_clients-Outcome pkt c bounded =
    check_clients-Outcome pkt c (forget_clients c) (forget_clients-Like c bounded)
