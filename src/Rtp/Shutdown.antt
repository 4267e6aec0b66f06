-- ===== src/Rtp/Shutdown.antt =====
-- internal/rtp/port.go: the end of a port as an interleaving of Run's goroutine, which closes the
-- channel `received` when it returns, and readLoop's, which sends on it.
pub mod Race
use sip_relay.Prelude.{◌≡◌, Bool, true, false, not, ◌||◌}

-- readLoop blocks in `ReadFromUDP`, holds a payload before its select, or has returned.
pub data Reader : Type 0 where
  reading holding done : Reader

-- Run waits in its select, waits for `<-errCh` after the context is done, or has returned.
pub data Runner : Type 0 where
  running draining returned : Runner

pub record Shared : Type 0 where
  pub reader : Reader
  pub runner : Runner
  pub socket_open : Bool
  pub channel_open : Bool
  pub panicked : Bool

abbrev pub opened : Shared
opened = record {
  reader = Reader.reading;
  runner = Runner.running;
  socket_open = true;
  channel_open = true;
  panicked = false;
}

-- One step of either goroutine. The media timer may fire only where `timeouts` says so.
pub data Step (timeouts : Bool) (s : Shared) : Shared → Type 0 where
  -- a usable packet is read
  arrive :
      s.reader ≡ Reader.reading
      → s.socket_open ≡ true
      → Step timeouts s (record s { reader = Reader.holding })
  -- the select of readLoop; a send on a closed channel panics
  put :
      s.reader ≡ Reader.holding
      → Step timeouts s
          (record s { reader = Reader.reading; panicked = s.panicked || not s.channel_open })
  -- a read error: readLoop returns
  fail : s.reader ≡ Reader.reading → Step timeouts s (record s { reader = Reader.done })
  -- the context is done: Run closes the socket and waits for readLoop
  cancel :
      s.runner ≡ Runner.running
      → Step timeouts s (record s { runner = Runner.draining; socket_open = false })
  -- `<-errCh`: Run returns, and closes the channel
  drained :
      s.runner ≡ Runner.draining
      → s.reader ≡ Reader.done
      → Step timeouts s (record s { runner = Runner.returned; channel_open = false })
  -- readLoop's result is received in the select itself
  ended :
      s.runner ≡ Runner.running
      → s.reader ≡ Reader.done
      → Step timeouts s (record s { runner = Runner.returned; channel_open = false })
  -- the media timeout: Run closes the socket and returns at once
  timeout :
      timeouts ≡ true
      → s.runner ≡ Runner.running
      → Step timeouts s
          (record s { runner = Runner.returned; socket_open = false; channel_open = false })

pub data Reach (timeouts : Bool) (s : Shared) : Shared → Type 0 where
  here : Reach timeouts s s
  next : {t u : Shared} → Reach timeouts s t → Step timeouts t u → Reach timeouts s u
