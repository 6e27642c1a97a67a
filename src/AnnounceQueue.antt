-- ===== src/AnnounceQueue.antt =====
-- lib/torrent/scheduler/announcequeue/queue.go: the queue of torrents that wait to announce.
-- An info hash is the number that its bytes spell. The `container/list` of ready torrents is a
-- list, front first; a call returns the new queue, and `next` also the torrent, if there is one.
pub mod Laws
mod Tests
pub mod Turns
use kraken.Base.{
  ℕ, Bool, true, false, not, Option, none, some, List, [], ◌∷◌, ◌++◌, if◌then◌else◌, ◌==◌, Map, get,
  put, del, ◌≡◌,
}

pub record Queue : Type 0 where
  pub ready_queue : List ℕ
  pub pending : Map Bool

unfoldable pub init : Queue
init = record { ready_queue = []; pending = [] }

unfoldable pub next : Queue → Queue × Option ℕ
next q = elim q.ready_queue [
  | [] ↦ (q, none)
  | h ∷ rest ↦ (record { ready_queue = rest; pending = put h true q.pending }, some h)
]

unfoldable pub add : ℕ → Queue → Queue
add h q = record q { ready_queue = q.ready_queue ++ h ∷ [] }

-- `q.pending[h]`, false where the key is missing.
abbrev pub is_pending : ℕ → Queue → Bool
is_pending h q = elim (get h q.pending) [ none ↦ false | some b ↦ b ]

unfoldable pub ready : ℕ → Queue → Queue
ready h q =
    if is_pending h q
    then record { ready_queue = q.ready_queue ++ h ∷ []; pending = del h q.pending }
    else q

-- The loop of `Eject`. `Remove` clears the links of the element that it takes out, so `e.Next()`
-- is nil after the first removal, and the loop ends there.
unfoldable pub remove_first : ℕ → List ℕ → List ℕ
remove_first h [] = []
remove_first h (x ∷ xs) = if x == h then xs else x ∷ remove_first h xs

unfoldable pub eject : ℕ → Queue → Queue
unfolding remove_first
eject h q = record { ready_queue = remove_first h q.ready_queue; pending = del h q.pending }

-- The calls of the interface `Queue`.
pub data Call : Type 0 where
  calls_next : Call
  calls_add calls_ready calls_eject : ℕ → Call

unfoldable pub step : Queue → Call → Queue × Option ℕ
unfolding next add ready eject
step q calls_next = next q
step q (calls_add h) = (add h q, none)
step q (calls_ready h) = (ready h q, none)
step q (calls_eject h) = (eject h q, none)

-- A sequence of calls: the queue afterwards, and the torrents that `next` returned, in order.
unfoldable pub run : Queue → List Call → Queue × List ℕ
unfolding step
run q [] = (q, [])
run q (c ∷ cs) =
    let (q', r) = step q c in
    let (q'', rs) = run q' cs in (q'', elim r [ none ↦ rs | some h ↦ h ∷ rs ])

-- `DisabledQueue`: its `next` returns no torrent, and the other calls do nothing.
unfoldable pub disabled_step : Unit {0} → Call → Unit {0} × Option ℕ
disabled_step q c = (q, none)
