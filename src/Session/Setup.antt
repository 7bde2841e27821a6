-- ===== src/Session/Setup.antt =====
-- What `init` of session.go fills in where the user of a `Session` has left a field out.
use ssmlib.Common.{Option}
use ssmlib.Once.{or_default, Guarded, init_once}

pub record SessionFields (H D L : Type 0) : Type 0 where
  pub handler : Option H
  pub dialer : Option D
  pub log : Option L

-- `NopHandler`, the dialer of the websocket package, and a logger that drops its records.
module _ {H D L : Type 0} (nop_handler : H) (default_dialer : D) (discard_logger : L) where
  unfoldable pub fill_session : SessionFields H D L → SessionFields H D L
  fill_session s = record {
    handler = or_default nop_handler s.handler;
    dialer = or_default default_dialer s.dialer;
    log = or_default discard_logger s.log;
  }

  abbrev pub init_session : Guarded (SessionFields H D L) → Guarded (SessionFields H D L)
  init_session = init_once fill_session
