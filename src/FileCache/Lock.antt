-- ===== src/FileCache/Lock.antt =====
-- src/cosim/utility/concurrency.cpp: `file_lock`, a lock on a file that the threads of a process share.
-- The lock of the operating system is a parameter: of what it is asked, the model keeps what the
-- process holds, and whether it grants a request is an argument. A call that would block takes no step.
use libcosim.Base.{
  ℕ, zero, suc, ◌-◌, Bool, true, false, not, ◌||◌, ◌&&◌, Option, none, some, ◌≡◌, refl, sym, ap,
  ◌∙◌, if◌then◌else◌, ◌==◌, ◌<◌, arith,
}
use mathlib.Core.Path.{subst}
use libcosim.Base.Positions.{some_cancel, none-ne-some}
use libcosim.Base.Int.{ℤ, pos, negsuc, add_ℤ}

-- What the process holds of the file
pub data Held : Type 0 where
  nothing sharable exclusive : Held

-- `boost_wrapper`
pub record BoostWrapper : Type 0 where
  pub share_count : ℤ
  pub held : Held

-- `file_mutex`: a `std::shared_mutex`, by its owner and the number of those that share it, and the file
pub record FileMutex : Type 0 where
  pub owned : Bool
  pub sharers : ℕ
  pub file : BoostWrapper

abbrev is_count : ℤ → ℕ → Bool
is_count (pos n) m = n == m
is_count (negsuc n) m = false

-- The methods of `boost_wrapper`; that the file is granted is seen to by the caller.
unfoldable pub lock_file : BoostWrapper → BoostWrapper
lock_file f = record { share_count = negsuc 0; held = exclusive }

unfoldable pub unlock_file : BoostWrapper → BoostWrapper
unlock_file f = record { share_count = pos 0; held = nothing }

unfoldable pub lock_file_shared : BoostWrapper → BoostWrapper
lock_file_shared f = record {
  share_count = add_ℤ f.share_count (pos 1);
  held = if is_count f.share_count 0 then sharable else f.held;
}

unfoldable pub unlock_file_shared : BoostWrapper → BoostWrapper
unlock_file_shared f = record {
  share_count = add_ℤ f.share_count (negsuc 0);
  held = if is_count f.share_count 1 then nothing else f.held;
}

-- Whether the mutex can be locked, and shared
abbrev pub may_lock : FileMutex → Bool
may_lock m = not m.owned && m.sharers == 0

abbrev pub may_share : FileMutex → Bool
may_share m = not m.owned

-- `lock` and `lock_shared`, where the file is granted; none while the mutex is not.
unfoldable pub lock : FileMutex → Option FileMutex
unfolding lock_file
lock m = if may_lock m then some (record m { owned = true; file = lock_file m.file }) else none

unfoldable pub lock_shared : FileMutex → Option FileMutex
unfolding lock_file_shared
lock_shared m =
    if may_share m
    then some (record m { sharers = suc m.sharers; file = lock_file_shared m.file })
    else none

unfoldable pub try_lock : Bool → FileMutex → Bool × FileMutex
unfolding lock_file
try_lock granted m =
    if may_lock m && granted
    then (true, record m { owned = true; file = lock_file m.file })
    else (false, m)

-- The file is asked for only by the first to share it.
unfoldable pub try_lock_shared : Bool → FileMutex → Bool × FileMutex
unfolding lock_file_shared
try_lock_shared granted m =
    if may_share m && (granted || not (is_count m.file.share_count 0))
    then (true, record m { sharers = suc m.sharers; file = lock_file_shared m.file })
    else (false, m)

unfoldable pub unlock : FileMutex → FileMutex
unfolding unlock_file
unlock m = record m { owned = false; file = unlock_file m.file }

unfoldable pub unlock_shared : FileMutex → FileMutex
unfolding unlock_file_shared
unlock_shared m = record m { sharers = m.sharers - 1; file = unlock_file_shared m.file }

abbrev pub unlocked : FileMutex
unlocked = record {
  owned = false;
  sharers = 0;
  file = record { share_count = pos 0; held = nothing };
}

-- The lock after calls of any threads. Only those unlock that hold it.
pub data LockReach : FileMutex → Type 0 where
  made : LockReach unlocked
  locks : {m n : FileMutex} → LockReach m → lock m ≡ some n → LockReach n
  shares : {m n : FileMutex} → LockReach m → lock_shared m ≡ some n → LockReach n
  tries : {m : FileMutex} (granted : Bool) → LockReach m → LockReach (try_lock granted m).1
  tries_shared :
      {m : FileMutex} (granted : Bool) → LockReach m → LockReach (try_lock_shared granted m).1
  unlocks : {m : FileMutex} → LockReach m → m.owned ≡ true → LockReach (unlock m)
  unlocks_shared : {m : FileMutex} → LockReach m → 0 < m.sharers → LockReach (unlock_shared m)

-- What the process holds, by the state of the mutex
abbrev pub held_for : Bool → ℕ → Held
held_for true n = exclusive
held_for false zero = nothing
held_for false (suc n) = sharable

-- The count is that of those who share the mutex, or -1 for its owner, who shares it with no one; and
-- the process holds the file as long as somebody holds the mutex, in the same way.
pub record IsConsistent (m : FileMutex) : Type 0 where
  pub alone : m.owned ≡ true → m.sharers ≡ 0
  pub count : m.file.share_count ≡ (if m.owned then negsuc 0 else pos m.sharers)
  pub held : m.file.held ≡ held_for m.owned m.sharers

lock-IsConsistent :
    (m : FileMutex)
    → may_lock m ≡ true
    → IsConsistent (record m { owned = true; file = lock_file m.file })
unfolding lock_file
lock-IsConsistent m e = record { alone = λ o. ground (arith, e); count = refl; held = refl }

lock_shared-IsConsistent :
    (m : FileMutex)
    → may_share m ≡ true
    → IsConsistent m
    → IsConsistent (record m { sharers = suc m.sharers; file = lock_file_shared m.file })
unfolding lock_file_shared add_ℤ
lock_shared-IsConsistent m e w =
    go m.owned m.sharers m.file.share_count m.file.held e w.count w.held
  where
    joined : (n : ℕ) (h : Held) → h ≡ held_for false n → (if n == 0 then sharable else h) ≡ sharable
    joined zero h q = refl
    joined (suc n) h q = ground (arith, q)

    go :
        (o : Bool) (n : ℕ) (c : ℤ) (h : Held)
        → not o ≡ true
        → c ≡ (if o then negsuc 0 else pos n)
        → h ≡ held_for o n
        → IsConsistent (record {
          owned = o;
          sharers = suc n;
          file = record {
            share_count = add_ℤ c (pos 1);
            held = if is_count c 0 then sharable else h;
          };
        })
    go true n c h e p q = cc
    go false n c h e p q = record {
      alone = λ o. cc;
      count = ap (λ (x : ℤ). add_ℤ x (pos 1)) p ∙ ap pos (omega arith);
      held = ap (λ (x : ℤ). if is_count x 0 then sharable else h) p ∙ joined n h q;
    }

unlock_shared-IsConsistent :
    (m : FileMutex) → 0 < m.sharers → IsConsistent m → IsConsistent (unlock_shared m)
unfolding unlock_shared unlock_file_shared add_ℤ
unlock_shared-IsConsistent m l w =
    go m.owned m.sharers m.file.share_count m.file.held l w.alone w.count w.held
  where
    left :
        (k : ℕ) (h : Held) → h ≡ sharable → (if suc k == 1 then nothing else h) ≡ held_for false k
    left zero h q = refl
    left (suc k) h q = ground (arith, q)

    go :
        (o : Bool) (n : ℕ) (c : ℤ) (h : Held)
        → 0 < n
        → (o ≡ true → n ≡ 0)
        → c ≡ (if o then negsuc 0 else pos n)
        → h ≡ held_for o n
        → IsConsistent (record {
          owned = o;
          sharers = n - 1;
          file = record {
            share_count = add_ℤ c (negsuc 0);
            held = if is_count c 1 then nothing else h;
          };
        })
    go true n c h l a p q = let z = a refl in absurd (omega (arith, l, z))
    go false zero c h l a p q = absurd (omega (arith, l))
    go false (suc k) c h l a p q = record {
      alone = λ o. cc;
      count = ap (λ (x : ℤ). add_ℤ x (negsuc 0)) p ∙ ground arith;
      held =
          ap (λ (x : ℤ). if is_count x 1 then nothing else h) p
          ∙ left k h q
          ∙ ap (held_for false) (omega arith);
    }

unlock-IsConsistent : (m : FileMutex) → m.owned ≡ true → IsConsistent m → IsConsistent (unlock m)
unfolding unlock unlock_file
unlock-IsConsistent m o w = record {
  alone = λ e. cc;
  count = ap pos (sym (w.alone o));
  held = ap (held_for false) (sym (w.alone o));
}

-- In whatever order threads lock, share, try and unlock, the lock is consistent: the file is given
-- back exactly when the last of those that share it unlocks.
pub LockReach-IsConsistent : {m : FileMutex} → LockReach m → IsConsistent m
unfolding lock lock_shared try_lock try_lock_shared
LockReach-IsConsistent made = record { alone = λ e. cc; count = refl; held = refl }
LockReach-IsConsistent (locks {m} r e) = go (may_lock m) refl e
  where
    go :
        {n : FileMutex} (b : Bool)
        → may_lock m ≡ b
        → (if b then some (record m { owned = true; file = lock_file m.file }) else none) ≡ some n
        → IsConsistent n
    go true t e = subst IsConsistent (some_cancel e) (lock-IsConsistent m t)
    go false t e = absurd (none-ne-some e)
LockReach-IsConsistent (shares {m} r e) = go (may_share m) refl e (LockReach-IsConsistent r)
  where
    go :
        {n : FileMutex} (b : Bool)
        → may_share m ≡ b
        → (if b
            then some (record m { sharers = suc m.sharers; file = lock_file_shared m.file })
            else none)
          ≡ some n
        → IsConsistent m
        → IsConsistent n
    go true t e w = subst IsConsistent (some_cancel e) (lock_shared-IsConsistent m t w)
    go false t e w = absurd (none-ne-some e)
LockReach-IsConsistent (tries {m} granted r) =
    go (may_lock m) granted refl (LockReach-IsConsistent r)
  where
    go :
        (b g : Bool)
        → may_lock m ≡ b
        → IsConsistent m
        → IsConsistent
            (if◌then◌else◌ {A = Bool × FileMutex}
              (b && g)
              (true, record m { owned = true; file = lock_file m.file })
              (false, m)).1
    go true true t w = lock-IsConsistent m t
    go true false t w = w
    go false g t w = w
LockReach-IsConsistent (tries_shared {m} granted r) =
    go (may_share m) (granted || not (is_count m.file.share_count 0)) refl
      (LockReach-IsConsistent r)
  where
    go :
        (b g : Bool)
        → may_share m ≡ b
        → IsConsistent m
        → IsConsistent
            (if◌then◌else◌ {A = Bool × FileMutex}
              (b && g)
              (true, record m { sharers = suc m.sharers; file = lock_file_shared m.file })
              (false, m)).1
    go true true t w = lock_shared-IsConsistent m t w
    go true false t w = w
    go false g t w = w
LockReach-IsConsistent (unlocks {m} r o) = unlock-IsConsistent m o (LockReach-IsConsistent r)
LockReach-IsConsistent (unlocks_shared {m} r l) =
    unlock_shared-IsConsistent m l (LockReach-IsConsistent r)
