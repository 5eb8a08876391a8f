-- ===== src/Chl/Subscription.antt =====
-- The branches of `set_pkt_rsp_subscribe` (src/tas_client/tas_pkt_handler_chl.cpp).
use tas_client_api.Prelude.{
  ℕ, ◌≡◌, ◌≤◌, ◌<◌, refl, ◌⊎◌, inl, inr, arith, Mem, not, true, byte0, byte1, byte2, byte3, ltb,
  ◌==◌, ◌!=◌, ◌&&◌, ◌||◌, if-lem,
}
use tas_client_api.Pkt.Cmd
use tas_client_api.Pkt.Err
use tas_client_api.ErrorInfo.{is_err, ErrorInfo, no_error}
use tas_client_api.Base.Errors.{err_connection_protocol}
use tas_client_api.Chl.Handler.{
  Chl, Subscribed, no_subscription, refused, take_subscription, is_cht, set_pkt_rsp_subscribe,
  cht_none, cht_bidi, chso_default, chso_exclusive, chl_lowest_priority,
}

-- The answer to the subscription of the handler's channel that succeeds.
pub record IsGranted (pkt : Mem ℕ) (c : Chl) : Type 0 where
  pub length : pkt 0 ≡ 12
  pub wl : byte0 (pkt 1) ≡ 1
  pub command : byte1 (pkt 1) ≡ Cmd.pl1_chl_subscribe
  pub err : byte3 (pkt 1) ≡ Err.pl_no_error
  pub own : byte0 (pkt 2) ≡ c.chl
  pub direction : (0 < byte1 (pkt 2)) × (byte1 (pkt 2) ≤ cht_bidi)
  pub option : byte2 (pkt 2) ≤ chso_exclusive
  pub priority : byte3 (pkt 2) ≤ chl_lowest_priority

-- Either an error is returned and noted, and no subscription is reported; or none is noted, and the
-- subscription is that of the packet, for which `Q` holds.
abbrev pub IsOutcome : Mem ℕ → Chl → Type 0 → Subscribed → Type 0
IsOutcome pkt c Q s =
    (s.ret ≡ s.handler.ei.tas_err)
    × (((is_err s.ret ≡ true) × (s.cht ≡ cht_none) × (s.chso ≡ chso_default) × (s.prio ≡ 0xFF))
        ⊎ ((s.handler ≡ record c { ei = no_error })
            × (s.cht ≡ byte1 (pkt 2))
            × (s.chso ≡ byte2 (pkt 2))
            × (s.prio ≡ byte3 (pkt 2))
            × Q))

IsOutcome-map :
    (pkt : Mem ℕ) (c : Chl) (Q R : Type 0) (s : Subscribed)
    → (Q → R)
    → IsOutcome pkt c Q s
    → IsOutcome pkt c R s
IsOutcome-map pkt c Q R s f (e, inl h) = (e, inl h)
IsOutcome-map pkt c Q R s f (e, inr (h, k, l, m, q)) = (e, inr (h, k, l, m, f q))

-- A refusal is an outcome.
turned_down :
    (pkt : Mem ℕ) (c : Chl) (Q : Type 0) (ei : ErrorInfo)
    → is_err ei.tas_err ≡ true
    → IsOutcome pkt c Q (no_subscription ei c)
turned_down pkt c Q ei e = (refl, inl (e, refl, refl, refl))

-- What the packet of a subscription that is taken says of it.
abbrev IsTaken : Mem ℕ → Type 0
IsTaken pkt =
    (byte3 (pkt 1) ≡ Err.pl_no_error)
    × ((0 < byte1 (pkt 2)) × (byte1 (pkt 2) ≤ cht_bidi))
    × (byte2 (pkt 2) ≤ chso_exclusive)
    × (byte3 (pkt 2) ≤ chl_lowest_priority)

take_subscription-Outcome :
    (pkt : Mem ℕ) (c : Chl) → IsOutcome pkt c (IsTaken pkt) (take_subscription pkt c)
unfolding take_subscription
take_subscription-Outcome pkt c =
    if-lem P (byte3 (pkt 1) == Err.pl_no_error && not (is_cht (byte1 (pkt 2)))) (λ h. bad)
      (λ dir.
        if-lem P (ltb chso_exclusive (byte2 (pkt 2)) || ltb chl_lowest_priority (byte3 (pkt 2)))
          (λ h. bad)
          (λ opt.
            if-lem P (byte3 (pkt 1) == Err.pl_no_error)
              (λ ok. (
                refl,
                inr (
                  refl,
                  refl,
                  refl,
                  refl,
                  (ground arith, (ground arith, ground arith), ground arith, ground arith),
                ),
              ))
              (λ h.
                if-lem P (byte3 (pkt 1) == Err.pl1_cmd_failed && byte1 (pkt 2) != c.cht)
                  (λ h. turned_down pkt c (IsTaken pkt) (refused c) refl) (λ h. bad))))
  where
    P : Subscribed → Type 0
    P = IsOutcome pkt c (IsTaken pkt)

    bad : P (no_subscription err_connection_protocol c)
    bad = turned_down pkt c (IsTaken pkt) err_connection_protocol refl

-- On every branch of `set_pkt_rsp_subscribe` the code returned is the one noted. Either it is an
-- error and no subscription is reported; or no error is noted, nothing else of the handler changes,
-- and the channel type, option and priority are those of the packet, which answers the subscription
-- of the handler's channel and keeps within the limits of the protocol.
pub set_pkt_rsp_subscribe-Outcome :
    (pkt : Mem ℕ) (c : Chl) → IsOutcome pkt c (IsGranted pkt c) (set_pkt_rsp_subscribe pkt c)
unfolding set_pkt_rsp_subscribe
set_pkt_rsp_subscribe-Outcome pkt c =
    if-lem P (pkt 0 != 12 || byte1 (pkt 1) != Cmd.pl1_chl_subscribe || byte0 (pkt 1) != 1)
      (λ h. bad)
      (λ head.
        if-lem P (byte0 (pkt 2) != c.chl) (λ h. bad)
          (λ own.
            IsOutcome-map pkt c (IsTaken pkt) (IsGranted pkt c) (take_subscription pkt c)
              (λ (ok, dir, opt, prio). record {
                length = ground arith;
                wl = ground arith;
                command = ground arith;
                err = ok;
                own = ground arith;
                direction = dir;
                option = opt;
                priority = prio;
              })
              (take_subscription-Outcome pkt c)))
  where
    P : Subscribed → Type 0
    P = IsOutcome pkt c (IsGranted pkt c)

    bad : P (no_subscription err_connection_protocol c)
    bad = turned_down pkt c (IsGranted pkt c) err_connection_protocol refl
