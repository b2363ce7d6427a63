-- ===== src/Obsidian/Grep/Drain/Pages.antt =====
-- internal/tools/obsidian/grep_concurrent.go: the page that `drain` leaves.
use personal_mcp_gateway.Base.{Bool, false, ◌||◌, List, [], ◌∷◌}
use personal_mcp_gateway.Obsidian.Grep.Reduce.{Reduced}
use personal_mcp_gateway.Obsidian.Grep.Reduced.{has_unfit}
use personal_mcp_gateway.Obsidian.Grep.Drain.{PendingJob}

-- Whether the scan has said so in one of the jobs.
abbrev pub any_unfit : List PendingJob → Bool
any_unfit [] = false
any_unfit (p ∷ pending) = has_unfit p.events || any_unfit pending
