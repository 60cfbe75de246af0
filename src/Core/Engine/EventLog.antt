-- ===== src/Core/Engine/EventLog.antt =====
-- The event log: its size, and what rotation keeps.
use tarvaultsync.Prelude.{
  ℕ, ◌≡◌, ◌∙◌, ◌⊎◌, inl, inr, Option, none, some, true, false, [], ◌∷◌, arith, Bool-cases,
}
use tarvaultsync.Prelude.Text.{text_eq}
use tarvaultsync.Prelude.Result.{ok}
use tarvaultsync.Core.{secret_type_eq, outcome_eq}
use tarvaultsync.Core.Engine.{Parts, append_event}
use tarvaultsync.Prelude.{◌≤◌, ◌+◌, ◌++◌, length, length-append}
use tarvaultsync.Core.{Bytes, Event}
use tarvaultsync.Core.Engine.{rotate, remove_old_log, log_is_full, event_log_limit}
use tarvaultsync.Core.Engine.Saved.{old_log}

-- The length of a file that may be missing
abbrev pub len_or_zero : Option ℕ → ℕ
len_or_zero none = 0
len_or_zero (some n) = n

module _ {W : Type 0} (p : Parts W) where
  -- What is assumed of the system: appending adds the bytes to the log and leaves the old log alone,
  -- removing the old log leaves the log alone, and a rename that succeeds moves the log.
  pub record IsLogging : Type 0 where
    pub append-len :
        (x : Bytes) (w : W)
        → (p.os.append p.events_path x w).0 ≡ ok tt
        → p.os.metadata_len p.events_path (p.os.append p.events_path x w).1
          ≡ some (len_or_zero (p.os.metadata_len p.events_path w) + length x)
    pub append-old_log :
        (x : Bytes) (w : W)
        → p.os.read (old_log p) (p.os.append p.events_path x w).1 ≡ p.os.read (old_log p) w
    pub remove-log :
        (w : W)
        → p.os.read p.events_path (p.os.remove_file (old_log p) w).1 ≡ p.os.read p.events_path w
    pub rename-gone :
        (w : W)
        → (p.os.rename p.events_path (old_log p) w).0 ≡ ok tt
        → p.os.metadata_len p.events_path (p.os.rename p.events_path (old_log p) w).1 ≡ none
    pub rename-moved :
        (w : W)
        → (p.os.rename p.events_path (old_log p) w).0 ≡ ok tt
        → p.os.read (old_log p) (p.os.rename p.events_path (old_log p) w).1
          ≡ p.os.read p.events_path w

  module _ (laws : IsLogging) where
    remove_old_log-log :
        (w : W) → p.os.read p.events_path (remove_old_log p w).1 ≡ p.os.read p.events_path w
    unfolding remove_old_log
    remove_old_log-log w = ground (arith, laws.remove-log w)

    -- After a successful rotation the log is gone and the old log is what the log was.
    rotate-full :
        (x : Bytes) (w : W)
        → log_is_full p x w ≡ true
        → (rotate p x w).0 ≡ ok tt
        → (p.os.metadata_len p.events_path (rotate p x w).1 ≡ none)
          × (p.os.read (old_log p) (rotate p x w).1 ≡ p.os.read p.events_path w)
    unfolding rotate
    rotate-full x w full h = ground (
      arith,
      remove_old_log-log w,
      laws.rename-gone (remove_old_log p w).1,
      laws.rename-moved (remove_old_log p w).1,
    )

    rotate-room :
        (x : Bytes) (w : W)
        → log_is_full p x w ≡ false
        → (rotate p x w ≡ (ok tt, w))
          × (len_or_zero (p.os.metadata_len p.events_path w) + length x + 1 ≤ event_log_limit
              ⊎ (p.os.metadata_len p.events_path w ≡ none))
    unfolding rotate log_is_full
    rotate-room x w room = ground arith

    append_event_parts :
        (x : Event) (bytes : Bytes) (w : W)
        → p.encode_event x ≡ some bytes
        → (append_event p x w).0 ≡ ok tt
        → ((rotate p bytes w).0 ≡ ok tt)
          × ((p.os.append p.events_path (bytes ++ (b'\n' ∷ [])) (rotate p bytes w).1).0 ≡ ok tt)
          × ((append_event p x w).1
              ≡ (p.os.append p.events_path (bytes ++ (b'\n' ∷ [])) (rotate p bytes w).1).1)
    unfolding append_event
    append_event_parts x bytes w e h = ground arith

    rotate-le-limit :
        (x : Bytes) (w : W)
        → length x + 1 ≤ event_log_limit
        → (rotate p x w).0 ≡ ok tt
        → len_or_zero (p.os.metadata_len p.events_path (rotate p x w).1)
            + length (x ++ (b'\n' ∷ []))
          ≤ event_log_limit
    rotate-le-limit x w fits r = elim (Bool-cases (log_is_full p x w)) [
      | inl full ↦ rw (length-append, (rotate-full x w full r).0) (omega arith)
      | inr room ↦ rw (length-append, (rotate-room x w room).0) (bound (rotate-room x w room).1)
    ]
      where
        bound :
            (len_or_zero (p.os.metadata_len p.events_path w) + length x + 1 ≤ event_log_limit)
              ⊎ (p.os.metadata_len p.events_path w ≡ none)
            → len_or_zero (p.os.metadata_len p.events_path w) + (length x + 1) ≤ event_log_limit
        bound (inl q) = omega arith
        bound (inr q) = rw q (omega arith)

    -- An event that fits the limit by itself leaves a log within the limit, however long the log
    -- was.
    pub append_event-le-limit :
        (x : Event) (bytes : Bytes) (w : W)
        → p.encode_event x ≡ some bytes
        → length bytes + 1 ≤ event_log_limit
        → (append_event p x w).0 ≡ ok tt
        → (n : ℕ) × (p.os.metadata_len p.events_path (append_event p x w).1 ≡ some n)
          × (n ≤ event_log_limit)
    append_event-le-limit x bytes w e fits h =
        let (r, a, end) = append_event_parts x bytes w e h in
        (_, rw end (laws.append-len _ _ a), rotate-le-limit bytes w fits r)

    -- If the event would not fit, the whole log before it is in the old log after it.
    pub append_event-rotates :
        (x : Event) (bytes : Bytes) (w : W)
        → p.encode_event x ≡ some bytes
        → log_is_full p bytes w ≡ true
        → (append_event p x w).0 ≡ ok tt
        → p.os.read (old_log p) (append_event p x w).1 ≡ p.os.read p.events_path w
    append_event-rotates x bytes w e full h =
        let (r, a, end) = append_event_parts x bytes w e h in
        rw end (laws.append-old_log _ _ ∙ (rotate-full bytes w full r).1)
