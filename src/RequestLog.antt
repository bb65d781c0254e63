-- ===== src/RequestLog.antt =====
-- RequestLog (handlers/requestlog.go): a ring of 500 slots in blobs, one for each index, beside the blob
-- of its counters. The blobs are decoded here, and the slots are a function of the index: a slot that
-- was never written decodes to the sequence 0. Each of the two writes of Add, and the one of the
-- rollback, may fail.
pub mod Ring
use ocpi_mock_hub.Prelude.{
  ℕ, zero, suc, ◌+◌, ◌-◌, ◌%◌, String, Option, none, some, List, [], ◌∷◌, Bool, ltb, ◌==◌, ◌&&◌,
  not, if◌then◌else◌,
}

pub record RequestLogEntry : Type 0 where
  pub timestamp : String
  pub method : String
  pub path : String
  pub status : ℕ
  pub duration_ms : ℕ
  pub ocpi_from : String
  pub ocpi_to : String
  pub request_body : String

pub record RequestLogState : Type 0 where
  pub last_sequence : ℕ
  pub next_index : ℕ
  pub count : ℕ

pub record RequestLogSlot : Type 0 where
  pub sequence : ℕ
  pub entry : RequestLogEntry

pub record RequestLog : Type 0 where
  pub meta : RequestLogState
  pub slots : ℕ → RequestLogSlot

abbrev pub no_entry : RequestLogEntry
no_entry = record {
  timestamp = "";
  method = "";
  path = "";
  status = 0;
  duration_ms = 0;
  ocpi_from = "";
  ocpi_to = "";
  request_body = "";
}

-- NewRequestLog, with no blob stored
unfoldable pub new_request_log : RequestLog
new_request_log = record {
  meta = record { last_sequence = 0; next_index = 0; count = 0 };
  slots = λ i. record { sequence = 0; entry = no_entry };
}

abbrev pub max_log_entries : ℕ
max_log_entries = 500

-- the first UpdateBlob of Add
unfoldable pub reserve : RequestLogState → RequestLogState
reserve m = record {
  last_sequence = m.last_sequence + 1;
  next_index = (m.next_index + 1) % max_log_entries;
  count = if ltb m.count max_log_entries then m.count + 1 else m.count;
}

-- the second one
unfoldable pub write_slot : ℕ → RequestLogSlot → (ℕ → RequestLogSlot) → ℕ → RequestLogSlot
write_slot index slot slots i = if i == index then slot else slots i

-- rollbackReservedEntry
unfoldable pub rollback : ℕ → ℕ → ℕ → RequestLogState → RequestLogState
rollback write_index sequence previous_count m =
    if (m.last_sequence == sequence) && (m.next_index == (write_index + 1) % max_log_entries)
    then record {
      last_sequence = m.last_sequence - 1;
      next_index = write_index;
      count = previous_count;
    }
    else m

-- How the updates of one Add end.
pub data AddResult : Type 0 where
  stored : AddResult
  meta_failed : AddResult
  slot_failed : AddResult
  slot_and_rollback_failed : AddResult

unfoldable pub add_entry : AddResult → RequestLogEntry → RequestLog → RequestLog
unfolding reserve write_slot rollback
add_entry meta_failed entry log = log
add_entry stored entry log =
    let m = reserve log.meta in
    record {
      meta = m;
      slots =
          write_slot log.meta.next_index (record { sequence = m.last_sequence; entry = entry })
            log.slots;
    }
add_entry slot_failed entry log =
    let m = reserve log.meta in
    record log { meta = rollback log.meta.next_index m.last_sequence log.meta.count m }
add_entry slot_and_rollback_failed entry log = record log { meta = reserve log.meta }

-- the entry of a slot, if its sequence is the expected one
unfoldable pub shows : RequestLogSlot → ℕ → Option RequestLogEntry
shows slot expected = if slot.sequence == expected then some slot.entry else none

-- the body of the loop of Entries, for the i-th newest slot
unfoldable pub shown : RequestLog → ℕ → Option RequestLogEntry
unfolding shows
shown log i =
    shows (log.slots ((log.meta.next_index + max_log_entries - 1 - i) % max_log_entries))
      (log.meta.last_sequence - i)

unfoldable pub cons_shown : Option RequestLogEntry → List RequestLogEntry → List RequestLogEntry
cons_shown none rest = rest
cons_shown (some entry) rest = entry ∷ rest

unfoldable pub entries_from : RequestLog → ℕ → ℕ → List RequestLogEntry
unfolding shown cons_shown
entries_from log i zero = []
entries_from log i (suc k) = cons_shown (shown log i) (entries_from log (i + 1) k)

unfoldable pub entries : RequestLog → List RequestLogEntry
unfolding entries_from
entries log = entries_from log 0 log.meta.count
