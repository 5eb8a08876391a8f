-- ===== src/Client/Listing.antt =====
-- What CTasClientServerCon::get_targets returns (src/tas_client/tas_client_server_con.cpp).
use tas_client_api.Prelude.{
  ℕ, zero, suc, ◌+◌, ◌≤◌, ◌<◌, ◌≡◌, refl, ap, ◌∙◌, sym, ◌⊎◌, inl, inr, arith, true, false, Option,
  some, Mem, ltb, u8, byte0, byte1, byte2, if-lem,
}
use tas_client_api.ErrorInfo.{is_err, ErrorInfo, no_error}
use tas_client_api.Base.Errors.{err_server_connection}
use tas_client_api.ServerCon.Handler.{ServerCon, num_target_max}
use tas_client_api.ServerCon.Targets.{
  Listing, lesser, get_pkt_rq_get_targets, set_pkt_rsp_get_targets, get_target_info,
}
use tas_client_api.ServerCon.Listed.{IsOutcome, set_pkt_rsp_get_targets-Outcome}
use tas_client_api.Client.MailboxIf.{Reply, MailboxIf}
use tas_client_api.Client.Con.{Con, handler, with_handler, err_rcv_chl_active}
use tas_client_api.Client.Lists.{
  Targets, no_targets, all_targets, after_listing, targets_loop, get_targets,
}

-- A server that makes progress: every response that `execute` receives has at least one target, but
-- that of an empty list, which begins at 0. Nothing is asked of an `execute` that fails.
pub record IsServing {M : Type 0} (mb_if : MailboxIf M) : Type 0 where
  pub progress :
      (rq rsp : Mem ℕ) (m : M)
      → (mb_if.execute rq rsp 1 m).ret ≡ true
      → (0 < byte2 ((mb_if.execute rq rsp 1 m).rsp 2))
        ⊎ ((byte0 ((mb_if.execute rq rsp 1 m).rsp 2) ≡ 0)
            × (byte1 ((mb_if.execute rq rsp 1 m).rsp 2) ≡ 0))

-- Either an error is returned and noted, and no target; or none is noted, and the number of targets
-- is the length of the list, which is at most 64.
abbrev pub IsTargets : {M : Type 0} → Targets M → Type 0
IsTargets t =
    (t.ret ≡ t.con.ei.tas_err)
    × (t.con.tphsc.num_target ≤ num_target_max)
    × (((is_err t.ret ≡ true) × (t.num_target ≡ 0))
        ⊎ ((t.con.ei ≡ no_error) × (t.num_target ≡ t.con.tphsc.num_target)))

abbrev pub Returns : {M : Type 0} → Option (Targets M) → Type 0
Returns {M} o = (t : Targets M) × (o ≡ some t) × IsTargets t

module _ {M : Type 0} where
  after_listing-Returns :
      (pkt : Mem ℕ) (start : ℕ) (c : ServerCon) (l : Listing) (k : Con M)
      (next : ℕ → Con M → Option (Targets M))
      → c.start_index ≡ start
      → (0 < byte2 (pkt 2)) ⊎ ((byte0 (pkt 2) ≡ 0) × (byte1 (pkt 2) ≡ 0))
      → IsOutcome pkt c l
      → ((start' : ℕ) (d : Con M)
          → start < start'
          → start' < d.tphsc.num_target
          → d.tphsc.num_target ≤ num_target_max
          → Returns (next start' d))
      → Returns (after_listing no_targets all_targets next start l k)
  unfolding get_target_info
  after_listing-Returns pkt start c l k next at progress (e, bounded, inl (err, num, now, same))
        rest =
      if-lem Returns (is_err l.ret)
        (λ h. (
          no_targets l.handler.base.ei (with_handler l.handler k),
          refl,
          (refl, bounded, inl (ap is_err (sym e) ∙ err, refl)),
        ))
        (λ h. absurd (ground arith))
  after_listing-Returns pkt start c l k next at progress (e, bounded, inr h) rest =
      if-lem Returns (is_err l.ret) (λ err. absurd (ground (arith, bad, err)))
        (λ ok.
          if-lem Returns (ltb (u8 (start + l.num_now)) l.num)
            (λ more.
              rest (u8 (start + l.num_now)) (with_handler l.handler k) (moved (h.total) more)
                (ground (arith, h.num)) bounded)
            (λ last.
              (all_targets (with_handler l.handler k), refl, (refl, bounded, inr (refl, refl)))))
    where
      bad : is_err l.ret ≡ false
      bad = ap is_err e ∙ ap (λ (ei : ErrorInfo). is_err ei.tas_err) h.no_error

      moved :
          ((c.start_index ≡ 0) × (l.num ≡ lesser (byte0 (pkt 2)) num_target_max))
            ⊎ ((0 < c.start_index) × (l.num ≡ c.num_target))
          → ltb (u8 (start + l.num_now)) l.num ≡ true
          → start < u8 (start + l.num_now)
      moved total more = ground (arith, at, progress, h.num_now, h.start, h.room)

module _ {M : Type 0} (mb_if : MailboxIf M) (is_serving : IsServing mb_if) where
  targets_loop-Returns :
      (fuel : ℕ) (rsp : Mem ℕ) (start : ℕ) (k : Con M)
      → num_target_max < start + fuel
      → (start ≡ 0) ⊎ (start < k.tphsc.num_target)
      → k.tphsc.num_target ≤ num_target_max
      → Returns (targets_loop mb_if fuel rsp start k)
  unfolding targets_loop get_pkt_rq_get_targets
  targets_loop-Returns zero rsp start k enough inside bounded = absurd (ground arith)
  targets_loop-Returns (suc fuel) rsp start k enough inside bounded =
      if-lem Returns r.ret
        (λ ok.
          after_listing-Returns r.rsp start (handler received)
            (set_pkt_rsp_get_targets r.rsp (handler received)) received
            (targets_loop mb_if fuel r.rsp) refl
            (is_serving.progress built.tphsc.base.rq_buf rsp built.mailbox ok)
            (set_pkt_rsp_get_targets-Outcome r.rsp (handler received) bounded)
            (λ start'. λ d. λ moved. λ inside. λ bounded.
              targets_loop-Returns fuel r.rsp start' d (omega arith) (inr inside) bounded))
        (λ e. (no_targets err_server_connection received, refl, (refl, bounded, inl (refl, refl))))
    where
      built : Con M
      built = with_handler (get_pkt_rq_get_targets start (handler k)) k

      r : Reply M
      r = mb_if.execute built.tphsc.base.rq_buf rsp 1 built.mailbox

      received : Con M
      received = record built { mailbox = r.mailbox }

  -- With a server that makes progress, and for a list of at most 64 targets, `get_targets` returns
  -- after 65 packets at most. Either an error is returned and noted, with no target; or no error is
  -- noted, and the number of targets is the length of the handler's list, which is at most 64.
  pub get_targets-Returns :
      (rsp : Mem ℕ) (k : Con M)
      → k.tphsc.num_target ≤ num_target_max
      → Returns (get_targets mb_if 65 rsp k)
  unfolding get_targets
  get_targets-Returns rsp k bounded =
      if-lem Returns k.rcv_chl_active
        (λ active. (no_targets err_rcv_chl_active k, refl, (refl, bounded, inl (refl, refl))))
        (λ h. targets_loop-Returns 65 rsp 0 k (omega arith) (inl refl) bounded)
