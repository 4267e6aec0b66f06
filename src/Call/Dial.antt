-- ===== src/Call/Dial.antt =====
-- internal/call/call.go: dialBackend as an interleaving of the goroutine that dials and the select that
-- waits for it. `Dial` returns when it likes, with a stream or an error.
pub mod Leaks
use sip_relay.Prelude.{◌≡◌, Bool, true, false, Option, none, some}

-- The dialing goroutine: in `Dial`, back from it (with a stream or an error), past the check of its
-- context, or done.
pub data Dialing : Type 0 where
  dialing : Dialing
  back : Bool → Dialing
  checked : Bool → Dialing
  gone : Dialing

-- The caller of dialBackend: in its select, or returned with the stream or an error.
pub data Waiting : Type 0 where
  waiting with_stream with_error : Waiting

-- The stream, if `Dial` made one: nobody closed it, or the goroutine did.
pub data Made : Type 0 where
  no_stream alive closed : Made

pub record Attempt : Type 0 where
  pub dialing : Dialing
  pub waiting : Waiting
  pub stream : Made
  pub results : Option Bool  -- the channel, of capacity 1: whether the result has a stream
  pub canceled : Bool  -- the dialing context

abbrev pub begun : Attempt
begun = record {
  dialing = Dialing.dialing;
  waiting = Waiting.waiting;
  stream = Made.no_stream;
  results = none;
  canceled = false;
}

pub data Step (s : Attempt) : Attempt → Type 0 where
  -- `Dial` returns
  dialed :
      s.dialing ≡ Dialing.dialing
      → Step s (record s { dialing = Dialing.back true; stream = Made.alive })
  refused : s.dialing ≡ Dialing.dialing → Step s (record s { dialing = Dialing.back false })
  -- `if dialCtx.Err() != nil`
  drop_stream :
      s.dialing ≡ Dialing.back true
      → s.canceled ≡ true
      → Step s (record s { dialing = Dialing.gone; stream = Made.closed })
  drop_error :
      s.dialing ≡ Dialing.back false
      → s.canceled ≡ true
      → Step s (record s { dialing = Dialing.gone })
  check :
      {ok : Bool}
      → s.dialing ≡ Dialing.back ok
      → s.canceled ≡ false
      → Step s (record s { dialing = Dialing.checked ok })
  -- `results <- result`, which blocks while the channel is full
  send :
      {ok : Bool}
      → s.dialing ≡ Dialing.checked ok
      → s.results ≡ none
      → Step s (record s { dialing = Dialing.gone; results = some ok })
  -- the arms of the select
  take_stream :
      s.waiting ≡ Waiting.waiting
      → s.results ≡ some true
      → Step s (record s { waiting = Waiting.with_stream; results = none })
  take_error :
      s.waiting ≡ Waiting.waiting
      → s.results ≡ some false
      → Step s (record s { waiting = Waiting.with_error; results = none; canceled = true })
  give_up :
      s.waiting ≡ Waiting.waiting
      → Step s (record s { waiting = Waiting.with_error; canceled = true })
  -- the call's context, or what `run` defers, cancels the dialing context
  cancel : Step s (record s { canceled = true })

pub data Reach (s : Attempt) : Attempt → Type 0 where
  here : Reach s s
  next : {t u : Attempt} → Reach s t → Step t u → Reach s u
