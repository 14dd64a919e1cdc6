-- ===== src/Motokano/Startup/Oneshot.antt =====
-- A server as rs/crates/motokano/src/main.rs starts it, serving calls (server.rs).
use ningen_shikkaku.Base.{
  ℕ, ◌+◌, ◌≤◌, ◌<◌, ◌≡◌, refl, ap, sym, ◌∙◌, subst, true, false, Option, none, some, List, ◌⊎◌,
  count_if,
}
use ningen_shikkaku.Base.Results.{ok, >>=-take}
use ningen_shikkaku.Motokano.Tools.{ToolDef}
use ningen_shikkaku.Motokano.Counter.{CounterMode}
use ningen_shikkaku.Motokano.Server.{Server, Runner, Move, start, run}
use ningen_shikkaku.Motokano.Server.Calls.{is_success}
use ningen_shikkaku.Motokano.Server.Budget.{run-budget}
use ningen_shikkaku.Motokano.Startup.{Cli, Host, counter_mode, open_sink, parse_tools, link, launch}

-- The budget that the options stand for.
abbrev pub budget : Option ℕ → ℕ
budget none = 1
budget (some n) = n

counter_mode-budget :
    (calls : Option ℕ) → counter_mode false calls ≡ CounterMode.calls (budget calls)
unfolding counter_mode
counter_mode-budget none = refl
counter_mode-budget (some n) = refl

-- A server that has been launched is one that starts with the tools of its specs, each parsed.
launch-start :
    (h : Host) (cli : Cli) (s : Server)
    → launch h cli ≡ ok s
    → (tools : List ToolDef) × (parse_tools h.memory cli.tool ≡ ok tools)
      × (start (counter_mode cli.session cli.calls) cli.arm cli.dazai_socket cli.korg_sink tools
          ≡ s)
unfolding launch
launch-start h cli s launched =
    >>=-take (open_sink cli.korg_sink h.sink_opens) _ launched λ u0 p0 h0.
      >>=-take (parse_tools h.memory cli.tool) _ h0
        λ tools p1 h1. >>=-take (link h cli.dazai_socket) _ h1 λ u2 p2 h2. (tools, p1, cc)

-- What a server with a budget has served by the end.
abbrev Within : ℕ → Runner → List Move → Server → Type 0
Within n r ms s =
    let (s', answers) = run r ms s in
    (count_if is_success answers ≤ n)
    × (count_if is_success answers + s'.counter.remaining ≡ n)
    × ((s'.closed ≡ true) ⊎ (0 < s'.counter.remaining))

-- A server launched without --session serves at most the number of calls of --calls, or one where
-- the option is missing, whatever calls and exits come and in whatever order; what it has not
-- served is what its counter still holds, and it is closed or has some left. --calls 0 is left out.
pub launch-budget :
    (h : Host) (cli : Cli) (s : Server) (r : Runner) (ms : List Move)
    → launch h cli ≡ ok s
    → cli.session ≡ false
    → 0 < budget cli.calls
    → let (s', answers) = run r ms s in
      (count_if is_success answers ≤ budget cli.calls)
      × (count_if is_success answers + s'.counter.remaining ≡ budget cli.calls)
      × ((s'.closed ≡ true) ⊎ (0 < s'.counter.remaining))
launch-budget h cli s r ms launched alone positive =
    let (tools, parsed, started) = launch-start h cli s launched in
    let mode : counter_mode cli.session cli.calls ≡ CounterMode.calls (budget cli.calls) =
      ap (λ b. counter_mode b cli.calls) alone ∙ counter_mode-budget cli.calls in
    let same =
      ap (λ m. start m cli.arm cli.dazai_socket cli.korg_sink tools) (sym mode) ∙ started in
    subst (Within (budget cli.calls) r ms) same
      (run-budget (budget cli.calls) cli.arm cli.dazai_socket cli.korg_sink tools r ms positive)
