-- ===== src/ConnState/Blacklist.antt =====
-- How long a peer stays blacklisted.
use kraken.Base.{
  ℕ, ◌+◌, ◌≤◌, ◌<◌, Bool, true, false, not, Bool-cases, none, some, List, [], ◌∷◌, if◌then◌else◌,
  ◌==◌, ◌&&◌, ◌≡◌, arith, ◌≢◌, inl, inr,
}
use kraken.ConnState.{
  Conn, State, expiration, blacklisted, add_blacklist, clear_blacklist, add_pending, put_entry,
  delete_entry, delete_pending, move_pending_to_active, delete_active, Call, calls_blacklist,
  calls_clear, calls_add_pending, calls_delete_pending, calls_move, calls_delete_active, step, run,
}
use kraken.ConnState.Entries.{expiration-put_expiration, expiration-select}

-- The peer's entry runs out no earlier than at `t`.
pub record LastsUntil (t h p : ℕ) (s : State) : Type 0 where
  pub until : ℕ
  pub found : expiration h p s.blacklist ≡ some until
  pub late : t ≤ until

-- No call clears the blacklist of `h`.
abbrev pub AllSpare : ℕ → List Call → Type 0
AllSpare h [] = Unit
AllSpare h (calls_clear j ∷ cs) = (j ≢ h) × AllSpare h cs
AllSpare h (c ∷ cs) = AllSpare h cs

blacklist-of_add_pending :
    (p h : ℕ) (ids : List ℕ) (s : State) → (add_pending p h ids s).0.blacklist ≡ s.blacklist
unfolding add_pending put_entry
blacklist-of_add_pending p h ids s = ground arith

blacklist-of_delete_pending : (p h : ℕ) (s : State) → (delete_pending p h s).blacklist ≡ s.blacklist
unfolding delete_pending delete_entry
blacklist-of_delete_pending p h s = ground arith

blacklist-of_move :
    (closed : Bool) (c : Conn) (s : State)
    → (move_pending_to_active closed c s).0.blacklist ≡ s.blacklist
unfolding move_pending_to_active put_entry
blacklist-of_move closed c s = ground arith

blacklist-of_delete_active : (c : Conn) (s : State) → (delete_active c s).blacklist ≡ s.blacklist
unfolding delete_active delete_entry
blacklist-of_delete_active c s = ground arith

accepted :
    (t p h : ℕ) (s : State)
    → (add_blacklist t p h s).1 ≡ none
    → s.config.disable_blacklist ≡ false
    → blacklisted t p h s ≡ false
unfolding add_blacklist
accepted t p h s ok on = ground arith

-- A new entry is written exactly where the blacklist is enabled and no entry is in force.
abbrev renews : (h p now q j : ℕ) → State → Bool
renews h p now q j s =
    not s.config.disable_blacklist && (not (blacklisted now q j s) && ((j == h) && (q == p)))

expiration-add_blacklist :
    (h p now q j : ℕ) (s : State)
    → expiration h p (add_blacklist now q j s).0.blacklist ≡ (
        if renews h p now q j s
        then some (now + s.config.blacklist_duration)
        else expiration h p s.blacklist)
unfolding add_blacklist
expiration-add_blacklist h p now q j s =
    ground
      (arith, expiration-put_expiration j q h p (now + s.config.blacklist_duration) s.blacklist)

add_blacklist-LastsUntil :
    (t h p now q j : ℕ) (s : State)
    → LastsUntil t h p s
    → LastsUntil t h p (add_blacklist now q j s).0
add_blacklist-LastsUntil t h p now q j s l = elim (Bool-cases (renews h p now q j s)) [
  | inl new ↦ record {
    until = now + s.config.blacklist_duration;
    found = ground (arith, expiration-add_blacklist h p now q j s);
    late = unfold blacklisted in ground arith;
  }
  | inr old ↦ record {
    until = l.until;
    found = ground (arith, expiration-add_blacklist h p now q j s);
    late = l.late;
  }
]

same_blacklist :
    (t h p : ℕ) (s s' : State)
    → s'.blacklist ≡ s.blacklist
    → LastsUntil t h p s
    → LastsUntil t h p s'
same_blacklist t h p s s' e l = record { until = l.until; found = ground arith; late = l.late }

step-LastsUntil :
    (t h p : ℕ) (s : State) (c : Call)
    → AllSpare h (c ∷ [])
    → LastsUntil t h p s
    → LastsUntil t h p (step s c)
unfolding step
step-LastsUntil t h p s (calls_blacklist now q j) a l = add_blacklist-LastsUntil t h p now q j s l
step-LastsUntil t h p s (calls_clear j) a l = record {
  until = l.until;
  found = unfold clear_blacklist in ground (arith, expiration-select j h p s.blacklist);
  late = l.late;
}
step-LastsUntil t h p s (calls_add_pending q j ids) a l =
    same_blacklist t h p s _ (blacklist-of_add_pending q j ids s) l
step-LastsUntil t h p s (calls_delete_pending q j) a l =
    same_blacklist t h p s _ (blacklist-of_delete_pending q j s) l
step-LastsUntil t h p s (calls_move closed c) a l =
    same_blacklist t h p s _ (blacklist-of_move closed c s) l
step-LastsUntil t h p s (calls_delete_active c) a l =
    same_blacklist t h p s _ (blacklist-of_delete_active c s) l

AllSpare-split :
    (h : ℕ) (c : Call) (cs : List Call) → AllSpare h (c ∷ cs) → AllSpare h (c ∷ []) × AllSpare h cs
AllSpare-split h (calls_clear j) cs a = ((a.0, tt), a.1)
AllSpare-split h (calls_blacklist now q j) cs a = (tt, a)
AllSpare-split h (calls_add_pending q j ids) cs a = (tt, a)
AllSpare-split h (calls_delete_pending q j) cs a = (tt, a)
AllSpare-split h (calls_move closed c) cs a = (tt, a)
AllSpare-split h (calls_delete_active c) cs a = (tt, a)

run-LastsUntil :
    (t h p : ℕ) (s : State) (cs : List Call)
    → AllSpare h cs
    → LastsUntil t h p s
    → LastsUntil t h p (run s cs)
unfolding run
run-LastsUntil t h p s [] a l = l
run-LastsUntil t h p s (c ∷ cs) a l =
    let (one, rest) = AllSpare-split h c cs a in
    run-LastsUntil t h p (step s c) cs rest (step-LastsUntil t h p s c one l)

-- A peer that was blacklisted without an error, with the blacklist enabled, reads as blacklisted
-- for the whole duration, whatever calls follow, unless the torrent's blacklist is cleared.
pub add_blacklist_holds :
    (t h p later : ℕ) (s : State) (cs : List Call)
    → s.config.disable_blacklist ≡ false
    → (add_blacklist t p h s).1 ≡ none
    → AllSpare h cs
    → later < t + s.config.blacklist_duration
    → blacklisted later p h (run (add_blacklist t p h s).0 cs) ≡ true
add_blacklist_holds t h p later s cs on ok a early = unfold blacklisted in ground (arith, last)
  where
    first : LastsUntil (t + s.config.blacklist_duration) h p (add_blacklist t p h s).0
    first = record {
      until = t + s.config.blacklist_duration;
      found = ground (arith, expiration-add_blacklist h p t p h s, accepted t p h s ok on);
      late = omega arith;
    }

    last : LastsUntil (t + s.config.blacklist_duration) h p (run (add_blacklist t p h s).0 cs)
    last = run-LastsUntil _ h p _ cs a first

-- Right after such a call, the peer reads as not blacklisted at any time from the end of the
-- duration on.
add_blacklist_ends :
    (t h p later : ℕ) (s : State)
    → s.config.disable_blacklist ≡ false
    → (add_blacklist t p h s).1 ≡ none
    → t + s.config.blacklist_duration ≤ later
    → blacklisted later p h (add_blacklist t p h s).0 ≡ false
add_blacklist_ends t h p later s on ok late =
    unfold blacklisted in
    ground (arith, expiration-add_blacklist h p t p h s, accepted t p h s ok on)
