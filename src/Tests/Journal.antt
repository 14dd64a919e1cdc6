-- ===== src/Tests/Journal.antt =====
-- The lifecycle logs of rs/crates/dazai/src/main.rs and rs/crates/motokano/src/main.rs at concrete
-- runs. The parser knows the texts of two records.
use ningen_shikkaku.Base.{
  ℕ, ◌≡◌, refl, true, false, Option, none, some, List, [], ◌∷◌, ◌++◌, All, map, arith,
  if◌then◌else◌,
}
use ningen_shikkaku.Base.Text.{Bytes, codes, text_eq, text_eq_refl}
use ningen_shikkaku.Base.Decimal.{show}
use ningen_shikkaku.Kiroku.{
  Component, component_str, source_agent, Lifecycle, Reason, tool_name, reason_str,
}
use ningen_shikkaku.Kiroku.Json.{Value}
use ningen_shikkaku.Kiroku.Render.{
  common_args, own_args, result_of, sort_fields, succeeded, insert, text_le,
}
use ningen_shikkaku.Kiroku.Render.Printing.{
  print, value_of, members, args_map, result_map, record_of, record_value, body_of,
}
use ningen_shikkaku.Kiroku.Sink.{Sink, open_sink, now_unix_ms, hex, hex_digit, written, failed}
use ningen_shikkaku.Kiroku.Sink.Journal.{Entry, journal, ReadsBack, Written}
use ningen_shikkaku.Kikka.EventLoop as EventLoop
use ningen_shikkaku.Kikka.EventLoop.Records as Daemon
use ningen_shikkaku.Motokano.Server.Records as Server
use ningen_shikkaku.Motokano.Counter.{calls}
use ningen_shikkaku.Motokano.Tools.{static_count, wipe_tools}
use ningen_shikkaku.Kikka.Daemon.{emit, wipe_buffers, count_u32}
use ningen_shikkaku.Kikka.Panic.{new}
use ningen_shikkaku.Goodnight.Buffer as Buffer
use ningen_shikkaku.Dazai.{make_buffers, key_made, key_written, work_made, work_written}
use ningen_shikkaku.Motokano.Server as Motokano
use ningen_shikkaku.Motokano.Server.{
  Move, disconnects, wakes, run, start, live_step, step, begin_exit, finish_exit, unregister,
  destroy, depart,
}
use ningen_shikkaku.Motokano.Server.Journal.{run-Written}
use ningen_shikkaku.Dazai.Loop.{serve, serve_start, secrets}
use ningen_shikkaku.Dazai.Loop.Journal.{serve-Written}
use ningen_shikkaku.Tests.Whole.{every_pid, killed_host, arguments}
use ningen_shikkaku.Tests.Server.{no_commands, one_tool}
use ningen_shikkaku.Tests.Contract.{producer, random}

abbrev clock : Option ℕ
clock = some 1700000000000

abbrev body : Component → Lifecycle → Bytes
body c e = body_of producer c (hex random) (now_unix_ms clock) e

abbrev value : Component → Lifecycle → Value
value c e = record_value producer c (hex random) (now_unix_ms clock) e

-- It reads the records of some steps.
parser : Component → List Lifecycle → Bytes → Option Value
parser c [] s = none
parser c (e ∷ es) s =
    let rest = parser c es s in if text_eq s (body c e) then some (value c e) else rest

reads_first :
    (c : Component) (e : Lifecycle) (es : List Lifecycle)
    → parser c (e ∷ es) (body c e) ≡ some (value c e)
unfolding parser
reads_first c e es = rw (text_eq_refl (body c e)) refl

reads_next :
    (c : Component) (e e' : Lifecycle) (es : List Lifecycle)
    → text_eq (body c e') (body c e) ≡ false
    → parser c es (body c e') ≡ some (value c e')
    → parser c (e ∷ es) (body c e') ≡ some (value c e')
unfolding parser
reads_next c e e' es other h = rw (other, h) refl

abbrev opening : Lifecycle
opening = Lifecycle.session_start false

abbrev wiping : Reason → Lifecycle
wiping r = Lifecycle.wipe r 2

abbrev closing : Reason → Lifecycle
closing = Lifecycle.session_end

abbrev steps : Reason → List Lifecycle
steps r = opening ∷ wiping r ∷ closing r ∷ []

-- The second write of the three fails behind 7 bytes.
abbrev entries : Reason → List Entry
entries r =
    record { clock = clock; outcome = written; event = opening }
    ∷ record { clock = clock; outcome = failed 7; event = wiping r }
    ∷ record { clock = clock; outcome = written; event = closing r }
    ∷ []

abbrev Distinct : Component → Reason → Type 0
Distinct c r =
    (text_eq (body c (wiping r)) (body c opening) ≡ false)
    × (text_eq (body c (closing r)) (body c opening) ≡ false)
    × (text_eq (body c (closing r)) (body c (wiping r)) ≡ false)

dazai-Distinct : Distinct Component.dazai Reason.client_quit
unfolding text_eq print record_value args_map result_map record_of members value_of sort_fields
    insert text_le common_args own_args result_of succeeded show hex hex_digit now_unix_ms
    component_str source_agent tool_name reason_str
dazai-Distinct = (refl, refl, refl)

motokano-Distinct : Distinct Component.motokano Reason.client_disconnect
unfolding text_eq print record_value args_map result_map record_of members value_of sort_fields
    insert text_le common_args own_args result_of succeeded show hex hex_digit now_unix_ms
    component_str source_agent tool_name reason_str
motokano-Distinct = (refl, refl, refl)

read_back :
    (c : Component) (r : Reason)
    → Distinct c r
    → All (ReadsBack (parser c (steps r)) producer c (hex random)) (entries r)
read_back c r (a, b, d) =
    let first = reads_first c opening (wiping r ∷ closing r ∷ []) in
    let second =
      reads_next c opening (wiping r) (wiping r ∷ closing r ∷ []) a
        (reads_first c (wiping r) (closing r ∷ [])) in
    let third =
      reads_next c opening (closing r) (wiping r ∷ closing r ∷ []) b
        (reads_next c (wiping r) (closing r) (closing r ∷ []) d (reads_first c (closing r) [])) in
    (first, (second, (third, tt)))

abbrev sink_of : Component → Sink
sink_of c = record { file = codes "x\n"; component = c; session = hex random; dropped = 0 }

abbrev quitting : List EventLoop.Action
quitting = EventLoop.receives (EventLoop.event EventLoop.quits) ∷ []

quitting-records :
    map (λ (x : Entry). x.event) (entries Reason.client_quit)
    ≡ Daemon.records (serve every_pid killed_host arguments false 0 quitting).daemon.trace
unfolding serve serve_start EventLoop.run EventLoop.act EventLoop.iterate EventLoop.on_received
    EventLoop.on_event EventLoop.start EventLoop.cleanup EventLoop.leave emit new wipe_buffers
    count_u32 make_buffers key_made Buffer.new key_written Buffer.write work_made work_written
    secrets
quitting-records = refl

abbrev leaving : List Move
leaving = disconnects ∷ wakes ∷ []

leaving-records :
    map (λ (x : Entry). x.event) (entries Reason.client_disconnect)
    ≡ Server.records
        (run no_commands leaving (start (calls 2) false false true (one_tool ++ one_tool))).0.trace
unfolding run live_step step begin_exit finish_exit unregister destroy depart static_count
    wipe_tools start Motokano.emit
leaving-records = refl

serve-Written_example :
    Written
      (parser Component.dazai (steps Reason.client_quit))
      producer
      Component.dazai
      (hex random)
      (codes "x\n")
      (entries Reason.client_quit)
      (journal producer (entries Reason.client_quit) (sink_of Component.dazai))
serve-Written_example =
    serve-Written every_pid killed_host arguments false 0 quitting
      (parser Component.dazai (steps Reason.client_quit)) producer (codes "x\n") random
      (sink_of Component.dazai) (entries Reason.client_quit) quitting-records (omega arith)
      (omega arith) refl (omega arith) (unfold open_sink in refl)
      (read_back Component.dazai Reason.client_quit dazai-Distinct)

run-Written_example :
    Written
      (parser Component.motokano (steps Reason.client_disconnect))
      producer
      Component.motokano
      (hex random)
      (codes "x\n")
      (entries Reason.client_disconnect)
      (journal producer (entries Reason.client_disconnect) (sink_of Component.motokano))
run-Written_example =
    run-Written (calls 2) false false true (one_tool ++ one_tool) no_commands leaving
      (parser Component.motokano (steps Reason.client_disconnect)) producer (codes "x\n") random
      (sink_of Component.motokano) (entries Reason.client_disconnect) leaving-records (omega arith)
      (omega arith) refl (omega arith) (unfold open_sink in refl)
      (read_back Component.motokano Reason.client_disconnect motokano-Distinct)
