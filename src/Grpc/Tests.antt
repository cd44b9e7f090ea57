-- ===== src/Grpc/Tests.antt =====
-- The theorems of the connection on concrete streams.
use oiwest_core.Common.{ℕ, ◌≤◌, ◌<◌, ◌≡◌, ◌⊎◌, List, [], ◌∷◌, ◌++◌, length, ok, err, arith}
use oiwest_core.Grpc.{Conn, eof, new_conn, read, write, frame_bytes}
use oiwest_core.Grpc.Stream.{pending, IsOpen, Carries, nothing, frame, read-Carries}
use oiwest_core.Grpc.Delivery.{drain, new_conn-IsOpen, drain-write}

abbrev two_bytes : List ℕ
two_bytes = 7 ∷ 8 ∷ []

abbrev stream : List ℕ
stream = frame_bytes two_bytes ++ []

one_frame : Carries (two_bytes ++ []) stream
one_frame = frame two_bytes (omega arith) (omega arith) nothing

read-Carries_example :
    ((pending new_conn ≡ []) × (two_bytes ++ [] ≡ []) × (read 1 new_conn stream ≡ err eof))
    ⊎ ((out : List ℕ) × (c' : Conn) × (bytes' : List ℕ) × (stream' : List ℕ) × (read 1 new_conn
            stream
          ≡ ok (out, c', stream'))
        × IsOpen c'
        × Carries bytes' stream'
        × (length out ≤ 1)
        × (0 < 1 → 0 < length out)
        × (out ++ (pending c' ++ bytes') ≡ pending new_conn ++ (two_bytes ++ [])))
read-Carries_example = read-Carries 1 new_conn new_conn-IsOpen one_frame

drain-write_example :
    (sent : List ℕ) × (write two_bytes new_conn ≡ ok sent)
    × (drain 3 1 new_conn sent ≡ (two_bytes, err eof))
drain-write_example = drain-write two_bytes 3 1 (omega arith) (omega arith)
