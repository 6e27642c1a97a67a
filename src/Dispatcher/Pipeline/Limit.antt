-- ===== src/Dispatcher/Pipeline/Limit.antt =====
-- The pipeline limit of a new dispatcher, whatever happens at it.
use kraken.Base.{ℕ, ◌≤◌, List, [], ◌∷◌}
use kraken.MetaInfo.{MetaInfo}
use kraken.Dispatcher.{Move, adds, asks_more, receives, leaves, resends, tears_down}

-- The time of a move after another; a move that does not read the clock is at once.
unfoldable pub move_time : ℕ → Move → ℕ
move_time t (adds id bits) = t
move_time t (asks_more a id) = a.now
move_time t (receives a id msg) = a.now
move_time t (leaves id) = t
move_time t (resends a) = a.now
move_time t tears_down = t

-- The clock does not run backwards.
abbrev pub Ascending : ℕ → List Move → Type 0
Ascending t [] = Unit
Ascending t (m ∷ ms) = (t ≤ move_time t m) × Ascending (move_time t m) ms

unfoldable pub last_time : ℕ → List Move → ℕ
unfolding move_time
last_time t [] = t
last_time t (m ∷ ms) = last_time (move_time t m) ms
