-- ===== src/Net/Whole.antt =====
-- A request of CTasPktHandlerRw on its way through the mailbox
-- (src/tas_client/tas_pkt_handler_rw.cpp and tas_pkt_mailbox_socket.cpp).
use tas_client_api.Prelude.{ℕ, List}
use tas_client_api.Rw.Trans.{Trans}
use tas_client_api.Rw.State.{Rw}
use tas_client_api.Rw.Request.{Request}
use tas_client_api.Net.Os.{Os}
use tas_client_api.Net.Mailbox.{Mailbox, send_pkts}
use tas_client_api.Net.Request.{IsWire, IsPut}

module _ {S : Type 0} (os : Os S) (sent : S → List ℕ) (is_wire : IsWire os sent) where
  -- What `send` makes of the request.
  abbrev pub IsTransmitted : Request → Mailbox S → Type 0
  IsTransmitted q m =
      IsPut os sent is_wire q.rq q.num_pl2_pkt q.rq_num_bytes m.sys
        (send_pkts os q.rq q.num_pl2_pkt m)
