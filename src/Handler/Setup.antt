-- ===== src/Handler/Setup.antt =====
-- `Stop` and what `init` of handler/stream.go and of handler/muxPortForward.go fills in where the user has left
-- a field out.
use ssmlib.Common.{Option}
use ssmlib.Once.{or_default, Guarded, init_once, stop_once}

pub record StreamFields (R W L : Type 0) : Type 0 where
  pub reader : Option R
  pub writer : Option W
  pub log : Option L

pub record MuxFields (L : Type 0) : Type 0 where
  pub log : Option L

module _ {R W L : Type 0} (stdin : R) (stdout : W) (discard_logger : L) where
  unfoldable pub fill_stream : StreamFields R W L → StreamFields R W L
  fill_stream s = record {
    reader = or_default stdin s.reader;
    writer = or_default stdout s.writer;
    log = or_default discard_logger s.log;
  }

  abbrev pub init_stream : Guarded (StreamFields R W L) → Guarded (StreamFields R W L)
  init_stream = init_once fill_stream

  abbrev pub stop_stream : Guarded (StreamFields R W L) → Option (Guarded (StreamFields R W L))
  stop_stream = stop_once fill_stream

module _ {L : Type 0} (discard_logger : L) where
  unfoldable pub fill_mux : MuxFields L → MuxFields L
  fill_mux m = record { log = or_default discard_logger m.log }

  abbrev pub init_mux : Guarded (MuxFields L) → Guarded (MuxFields L)
  init_mux = init_once fill_mux

  abbrev pub stop_mux : Guarded (MuxFields L) → Option (Guarded (MuxFields L))
  stop_mux = stop_once fill_mux
