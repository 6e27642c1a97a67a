-- ===== src/HealthCheck/Windows.antt =====
-- The passive filter against a specification by the times of a host's failures.
use kraken.Base.{
  ℕ, suc, ◌≤◌, Bool, false, not, Option, none, some, List, [], ◌∷◌, ◌++◌, if◌then◌else◌, ◌==◌, leb,
  length, ◌≡◌, refl, arith,
}
use kraken.HealthCheck.Passive.{
  PassiveConfig, over, pop_expired, PassiveCall, calls_run, calls_fail,
}

-- How many of the times are not over.
abbrev pub recent : PassiveConfig → ℕ → List ℕ → ℕ
recent c now [] = 0
recent c now (t ∷ ts) = if over c now t then recent c now ts else suc (recent c now ts)

-- The time of the last failure, of those listed latest first, that was one of enough recent ones.
abbrev pub last_mark : PassiveConfig → List ℕ → Option ℕ
last_mark c [] = none
last_mark c (t ∷ h) = if leb c.fails (suc (recent c t h)) then some t else last_mark c h

abbrev pub still_down : PassiveConfig → ℕ → Option ℕ → Bool
still_down c now none = false
still_down c now (some t) = not (over c now t)

-- The failures of a host, latest first, before those reported already.
abbrev pub failure_times : ℕ → List PassiveCall → List ℕ → List ℕ
failure_times a [] h = h
failure_times a (calls_run nows addrs ∷ cs) h = failure_times a cs h
failure_times a (calls_fail now b ∷ cs) h = failure_times a cs (if b == a then now ∷ h else h)

-- The time of a call on the host; the earlier one for a call on another host.
abbrev pub time_of : ℕ → ℕ → PassiveCall → ℕ
time_of a last (calls_run nows addrs) = nows a
time_of a last (calls_fail now b) = if b == a then now else last

-- The clock does not run backwards between calls on the host.
abbrev pub Forward : ℕ → ℕ → List PassiveCall → ℕ → Type 0
Forward a last [] end = last ≤ end
Forward a last (c ∷ cs) end = (last ≤ time_of a last c) × Forward a (time_of a last c) cs end

-- Ascending times.
abbrev pub Above : ℕ → List ℕ → Type 0
Above x [] = Unit
Above x (y ∷ ys) = (x ≤ y) × Above x ys

abbrev pub Sorted : List ℕ → Type 0
Sorted [] = Unit
Sorted (x ∷ xs) = Above x xs × Sorted xs

abbrev pub Below : ℕ → List ℕ → Type 0
Below z [] = Unit
Below z (y ∷ ys) = (y ≤ z) × Below z ys

recent_all :
    (c : PassiveConfig) (now x : ℕ) (ts : List ℕ)
    → over c now x ≡ false
    → Above x ts
    → recent c now ts ≡ length ts
recent_all c now x [] n s = refl
recent_all c now x (t ∷ ts) n s = ground (arith, recent_all c now x ts n s.1)

pub length-pop_expired :
    (c : PassiveConfig) (now : ℕ) (ts : List ℕ)
    → Sorted ts
    → length (pop_expired c now ts) ≡ recent c now ts
unfolding pop_expired
length-pop_expired c now [] s = refl
length-pop_expired c now (t ∷ ts) s =
    ground (arith, length-pop_expired c now ts s.1, recent_all c now t ts)

pub recent-pop_expired :
    (c : PassiveConfig) (now later : ℕ) (ts : List ℕ)
    → now ≤ later
    → recent c later (pop_expired c now ts) ≡ recent c later ts
unfolding pop_expired
recent-pop_expired c now later [] l = refl
recent-pop_expired c now later (t ∷ ts) l = ground (arith, recent-pop_expired c now later ts l)

pub recent-append :
    (c : PassiveConfig) (now t : ℕ) (ts : List ℕ)
    → recent c now (ts ++ t ∷ []) ≡ recent c now (t ∷ ts)
recent-append c now t [] = refl
recent-append c now t (x ∷ ts) = ground (arith, recent-append c now t ts)

pub pop_expired-Below :
    (c : PassiveConfig) (now z : ℕ) (ts : List ℕ) → Below z ts → Below z (pop_expired c now ts)
unfolding pop_expired
pop_expired-Below c now z [] b = tt
pop_expired-Below c now z (t ∷ ts) b = ground (arith, pop_expired-Below c now z ts b.1, b)

pub pop_expired-Sorted :
    (c : PassiveConfig) (now : ℕ) (ts : List ℕ) → Sorted ts → Sorted (pop_expired c now ts)
unfolding pop_expired
pop_expired-Sorted c now [] b = tt
pop_expired-Sorted c now (t ∷ ts) b = ground (arith, pop_expired-Sorted c now ts b.1, b)

append-Above : (x t : ℕ) (ts : List ℕ) → x ≤ t → Above x ts → Above x (ts ++ t ∷ [])
append-Above x t [] h s = (h, tt)
append-Above x t (y ∷ ts) h s = (s.0, append-Above x t ts h s.1)

pub append-Sorted : (t : ℕ) (ts : List ℕ) → Below t ts → Sorted ts → Sorted (ts ++ t ∷ [])
append-Sorted t [] b s = (tt, tt)
append-Sorted t (x ∷ ts) b s = (append-Above x t ts b.0 s.0, append-Sorted t ts b.1 s.1)

pub later-Below : (z t : ℕ) (ts : List ℕ) → z ≤ t → Below z ts → Below t ts
later-Below z t [] h b = tt
later-Below z t (x ∷ ts) h b = (omega (arith, h, b.0), later-Below z t ts h b.1)

pub append-Below : (t : ℕ) (ts : List ℕ) → Below t ts → Below t (ts ++ t ∷ [])
append-Below t [] b = (omega arith, tt)
append-Below t (x ∷ ts) b = (b.0, append-Below t ts b.1)
