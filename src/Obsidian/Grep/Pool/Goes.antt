-- ===== src/Obsidian/Grep/Pool/Goes.antt =====
-- No search of internal/tools/obsidian/grep_concurrent.go is stuck, and each ends.
use personal_mcp_gateway.Base.{Bytes, true, false, List, [], ◌∷◌, ◌++◌, ◌≡◌, ◌⊎◌}
use personal_mcp_gateway.Obsidian.Grep.{GrepScanEvent}
use personal_mcp_gateway.Obsidian.Grep.Pool.{
  VisitedFile, GrepConcurrentState, GrepBudget, walk_ended, limited, schedule, Search, Step, Steps,
}
use personal_mcp_gateway.Obsidian.Grep.Pool.Window.{walk_events}
use personal_mcp_gateway.Obsidian.Grep.Pool.Order.{HasStopped}

-- The walk has come to its end, to a limit, or to a file that has failed.
abbrev pub IsOver : GrepBudget → GrepConcurrentState → List VisitedFile → Type 0
IsOver b s [] = Unit
IsOver b s (f ∷ l) =
    ((reason : Bytes) × (schedule b s f ≡ limited reason)) ⊎ (schedule b s f ≡ walk_ended)

-- The reducer has stopped, or nothing is left in the window and the walk is over.
abbrev pub IsFinished : GrepBudget → Search → Type 0
IsFinished b x =
    (x.state.halted ≡ true)
    ⊎ (x.state.halted ≡ false) × (x.state.pending ≡ []) × IsOver b x.state x.unvisited

abbrev CanStep : GrepBudget → Search → Type 0
CanStep b x = (y : Search) × Step b x y

abbrev Finishes : GrepBudget → Search → Type 0
Finishes b x = (y : Search) × Steps b x y × IsFinished b y

-- What a search that has come to its end has received: all events before the end of the walk, or those up to one
-- at which the reducer has stopped.
abbrev pub HasReceived : GrepBudget → List GrepScanEvent → Search → Type 0
HasReceived b all x =
    ((x.state.halted ≡ true)
      × HasStopped b x.state.received
      × ((rest : List GrepScanEvent) × (x.state.received ++ rest ≡ all)))
    ⊎ (x.state.halted ≡ false)
      × IsOver b x.state x.unvisited
      × (x.state.received ++ walk_events x.unvisited ≡ all)
