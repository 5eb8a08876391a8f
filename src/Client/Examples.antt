-- ===== src/Client/Examples.antt =====
-- Tests of the clients, and the theorems at concrete inputs.
use tas_client_api.Prelude.{ℕ, ◌≡◌, refl, inl, arith, false, none, [], ◌∷◌}
use tas_client_api.ErrorInfo.{err_none}
use tas_client_api.Base.Ping.{client_rw, set_pkt_rsp_ping, take_ping, take_con_info}
use tas_client_api.Chl.Handler.{
  get_pkt_rq_subscribe, set_pkt_rsp_subscribe, take_subscription, get_pkt_send_msg,
}
use tas_client_api.Chl.Handler as Channels
use tas_client_api.ServerCon.Handler
use tas_client_api.ServerCon.Connecting.{get_pkt_rq_session_start, set_pkt_rsp_session_start}
use tas_client_api.Client.MailboxIf.{MailboxIf}
use tas_client_api.Client.Con
use tas_client_api.Client.Con.{Con}
use tas_client_api.Client.Lists.{get_targets}
use tas_client_api.Client.Listing.{IsServing, Returns, get_targets-Returns}
use tas_client_api.Client.Session.{IsStarted, session_start-IsStarted}
use tas_client_api.Client.Chl.{ClientChl, construct}
use tas_client_api.Client.Channel.{subscribe, request_subscription}
use tas_client_api.Client.Spec.{subscribing, IsConsistent, done, after, step_subscribe}
use tas_client_api.Client.Refine.{IsRefined, step-IsRefined, reachable-IsConsistent}
use tas_client_api.Client.TestData.{zeros, words, answering, con, chl}

-- A server with one target.
abbrev server : MailboxIf Unit
server = answering (words (88 ∷ 0x0800_8614 ∷ 0x0001_0001 ∷ 5 ∷ []))

server-IsServing : IsServing server
server-IsServing = record { progress = λ rq. λ rsp. λ m. λ ok. inl (omega arith) }

get_targets-Returns_example : Returns (get_targets server 65 zeros con)
unfolding Handler.construct
get_targets-Returns_example = get_targets-Returns server server-IsServing zeros con (omega arith)

-- A server that starts sessions, and a client without one.
abbrev hosting : MailboxIf Unit
hosting = answering (words (136 ∷ 0x0800_a120 ∷ 0x0000_0101 ∷ 1024 ∷ 1024 ∷ []))

abbrev stranger : Con Unit
stranger = record con { session_started = false }

begun : (Con.session_start hosting zeros client_rw [] [] [] 0 0 stranger).0 ≡ err_none
unfolding Con.session_start Handler.construct get_pkt_rq_session_start set_pkt_rsp_session_start
    set_pkt_rsp_ping take_ping take_con_info
begun = refl

session_start-IsStarted_example :
    IsStarted stranger (Con.session_start hosting zeros client_rw [] [] [] 0 0 stranger)
session_start-IsStarted_example =
    session_start-IsStarted hosting zeros client_rw [] [] [] 0 0 stranger

-- A server that grants channel 3 in both directions.
abbrev granting : MailboxIf Unit
granting = answering (words (12 ∷ 0x0800_c001 ∷ 0x0500_0303 ∷ []))

abbrev client : ClientChl Unit
client = construct granting zeros con chl

abbrev entered : ClientChl Unit
entered = (subscribe granting zeros 3 3 0 none client).client

in_channel : entered.chl_num ≡ 3
unfolding construct subscribe request_subscription get_pkt_rq_subscribe set_pkt_rsp_subscribe
    take_subscription Channels.construct
in_channel = refl

abbrev clock : Unit {0} → ℕ
clock m = 0

step-IsRefined_example : IsRefined (subscribing 3 3) client entered
unfolding construct
step-IsRefined_example =
    step-IsRefined granting clock (subscribing 3 3) client entered (inl (refl, refl, refl))
      (step_subscribe zeros 3 3 0 none client)

reachable-IsConsistent_example : IsConsistent entered
reachable-IsConsistent_example = reachable-IsConsistent granting clock con chl zeros entered refl (
    after (subscribing 3 3) client entered entered (step_subscribe zeros 3 3 0 none client)
      (done entered))
