-- ===== src/Tests/Paired.antt =====
-- A link with three hosts, at concrete states.
use geu_reflector.Base.{ℕ, ◌≡◌, refl, true, false, [], ◌∷◌, ◌==◌, arith}
use geu_reflector.Trunk.State.{heartbeat, talker_stop}
use geu_reflector.Wire.Codec.{and_then, pack_two}
use geu_reflector.Wire.Numbers.{pack8}
use geu_reflector.Wire.Peers.{packs, packs-heartbeat, pack_msg, pack_members, type_of}
use geu_reflector.Paired.State.{
  PairedLink, PairedClientState, PairedInboundState, send_msg_paired, is_live_at,
  paired_outbound_ready, any_live_host,
}
use geu_reflector.Paired.Connect.{on_paired_outbound_disconnected}
use geu_reflector.Paired.Heartbeat.{paired_inbound_tick}
use geu_reflector.Paired.Cyclic.{IsNext}
use geu_reflector.Paired.Failover.{WrittenTo, send_msg_paired-IsNext}
use geu_reflector.Paired.Lost.{on_paired_outbound_disconnected-WrittenTo}
use geu_reflector.Paired.Timeout.{TimedOut, paired_inbound_tick-timeout}
use geu_reflector.Tests.Link.{up}

abbrev host : PairedClientState
host = record { is_connected = true; hello_received = true; hb_tx_cnt = 4; hb_rx_cnt = 9 }

abbrev lost_host : PairedClientState
lost_host = record { is_connected = false; hello_received = false; hb_tx_cnt = 0; hb_rx_cnt = 0 }

abbrev silent : PairedInboundState
silent = record {
  con = 7;
  is_connected = true;
  hello_received = true;
  hb_tx_cnt = 4;
  hb_rx_cnt = 1;
}

abbrev three_hosts : PairedLink
three_hosts = record {
  shared = up 3 9;
  ob = host ∷ lost_host ∷ host ∷ [];
  ib = silent ∷ [];
  sticky = 1;
}

abbrev no_host : PairedLink
no_host = record three_hosts { ob = lost_host ∷ lost_host ∷ [] }

three_hosts-ready : paired_outbound_ready three_hosts ≡ true
unfolding paired_outbound_ready any_live_host
three_hosts-ready = refl

send_msg_paired-IsNext_example :
    (idx : ℕ) × IsNext 1 three_hosts.ob idx
    × WrittenTo idx heartbeat three_hosts (send_msg_paired heartbeat three_hosts)
send_msg_paired-IsNext_example =
    send_msg_paired-IsNext heartbeat three_hosts packs-heartbeat (omega arith) three_hosts-ready

talker_stop-packs : packs (talker_stop 240) ≡ true
unfolding packs pack_msg pack_members type_of and_then pack_two pack8
talker_stop-packs = refl

abbrev settled : PairedLink
settled = record three_hosts { sticky = 2 }

on_paired_outbound_disconnected-WrittenTo_example :
    (new : ℕ) × ((new == 2) ≡ false)
    × (is_live_at new settled.ob ≡ true)
    × WrittenTo new heartbeat
        (on_paired_outbound_disconnected 2 settled)
        (send_msg_paired heartbeat (on_paired_outbound_disconnected 2 settled))
on_paired_outbound_disconnected-WrittenTo_example =
    on_paired_outbound_disconnected-WrittenTo heartbeat 2 0 settled packs-heartbeat (omega arith)
      refl refl

paired_inbound_tick-timeout_example :
    TimedOut 0 silent no_host (paired_inbound_tick 0 (false, no_host)).1
paired_inbound_tick-timeout_example = paired_inbound_tick-timeout 0 false silent no_host refl refl
