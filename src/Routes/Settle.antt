-- ===== src/Routes/Settle.antt =====
-- routes/runs.py, `_collect_records_soft`: a run's trace records are read again until they stop
-- growing or the time for it is over. A read (`_fetch_records_once`), the clock and the sleep between
-- two reads are arguments; the read and the sleep may raise. `fuel` bounds the number of reads.
pub mod Ends
use autobench.Prelude.{
  ℕ, zero, suc, ◌+◌, Bool, true, false, ◌&&◌, Option, none, some, List, [], ◌∷◌, length, eqb, leb,
  if◌then◌else◌,
}
use autobench.Prelude.Outcome.{Action, Outcome, return, raise}

-- What the fingerprint looks at of a record.
pub record Counts : Type 0 where
  pub llm_count : ℕ
  pub tool_count : ℕ
  pub llm_input_tokens : ℕ
  pub llm_output_tokens : ℕ

pub record Fingerprint : Type 0 where
  pub records : ℕ
  pub llm : ℕ
  pub tools : ℕ
  pub input_tokens : ℕ
  pub output_tokens : ℕ

abbrev total : (Counts → ℕ) → List Counts → ℕ
total part [] = 0
total part (c ∷ records) = part c + total part records

-- `_records_fingerprint`
unfoldable pub records_fingerprint : List Counts → Fingerprint
records_fingerprint records = record {
  records = length records;
  llm = total (λ r. r.llm_count) records;
  tools = total (λ r. r.tool_count) records;
  input_tokens = total (λ r. r.llm_input_tokens) records;
  output_tokens = total (λ r. r.llm_output_tokens) records;
}

-- `current == previous`
unfoldable pub same_as : Option Fingerprint → Fingerprint → Bool
same_as none current = false
same_as (some previous) current =
    eqb current.records previous.records
    && eqb current.llm previous.llm
    && eqb current.tools previous.tools
    && eqb current.input_tokens previous.input_tokens
    && eqb current.output_tokens previous.output_tokens

abbrev has_any : List Counts → Bool
has_any [] = false
has_any (_ ∷ _) = true

-- One read: the records, and the span rows that come with them.
pub record Read (Rows : Type 0) : Type 0 where
  pub records : List Counts
  pub spans : Rows

-- What the loop ends with, and the state after it.
abbrev pub Settled : Type 0 → Type 0 → Type 0
Settled W Rows = Option (Outcome (Read Rows) × W)

module _ {W Rows : Type 0} (now : W → ℕ) (fetch : Action W (Option (Read Rows)))
    (sleep : Action W (Unit {0})) where
  -- Two identical reads in a row, and not of nothing.
  unfoldable pub has_settled : Option Fingerprint → Read Rows → Bool
  has_settled previous read =
      has_any read.records && same_as previous (records_fingerprint read.records)

  -- The next round, if nothing has cancelled the sleep.
  next_round : Outcome (Unit {0}) × W → (W → Settled W Rows) → Settled W Rows
  next_round (return _, w) again = again w
  next_round (raise e, w) again = some (raise e, w)

  -- What follows a read; `again` is the next round.
  after_read :
      ℕ
      → Option Fingerprint
      → Read Rows
      → Outcome (Option (Read Rows)) × W
      → (Read Rows → W → Settled W Rows)
      → Settled W Rows
  unfolding next_round
  after_read deadline previous last (raise e, w) again = some (raise e, w)
  after_read deadline previous last (return none, w) again = some (return last, w)
  after_read deadline previous last (return (some read), w) again =
      let more = next_round (sleep w) (again read) in
      if has_settled previous read
      then some (return read, w)
      else if leb deadline (now w)
      then some (return read, w)
      else more

  unfoldable pub collect : ℕ → ℕ → Option Fingerprint → Read Rows → W → Settled W Rows
  unfolding after_read
  collect zero deadline previous last w = none
  collect (suc fuel) deadline previous last w =
      after_read deadline previous last (fetch w)
        (λ read w'. collect fuel deadline (some (records_fingerprint read.records)) read w')

  -- `settle_max` is `export_settle_max_seconds`.
  unfoldable pub collect_records_soft : ℕ → ℕ → Read Rows → W → Settled W Rows
  collect_records_soft fuel settle_max nothing w = collect fuel (now w + settle_max) none nothing w
