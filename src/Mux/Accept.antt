-- ===== src/Mux/Accept.antt =====
-- AcceptStream of app/features/multiplex/mux.go.
use oiwest_core.Common.{ℕ, Bool, ◌&&◌, [], ◌∷◌, if◌then◌else◌}
use oiwest_core.Mux.{Session, Error, session_closed}

-- AcceptStream: a stream, an error, or a wait. Of two cases of the select that are both ready
-- either may be taken: `done_first` says which.
pub data Accepted : Type 0 where
  stream : ℕ → Accepted
  refused : Error → Accepted
  waiting : Accepted

abbrev pub accept_stream : Bool → Session → Session × Accepted
accept_stream done_first s = elim s.accept_queue [
  | [] ↦ (s, if s.closed then refused session_closed else waiting)
  | id ∷ queue ↦
      if s.closed && done_first
      then (s, refused session_closed)
      else (record s { accept_queue = queue }, stream id)
]
