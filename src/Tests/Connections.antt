-- ===== src/Tests/Connections.antt =====
-- A connection on which two queries arrive, in each mode.
use rcvd.Prelude.{◌≡◌, refl, some, [], ◌∷◌, List, arith, length}
use rcvd.Text.{Text, codes}
use rcvd.Framing.{read_frames}
use rcvd.Framing.Timed.{Timed, all_of}
use rcvd.Framing.Loop.{serve, serve_all}
use rcvd.Framing.Loop.Ends.{serve_ends}
use rcvd.Framing.Loop.Answers.{answers}
use rcvd.Server.Connection.{Session, tcp_handler, handle_tcp_connection}
use rcvd.Server.Pipelining.{handle_tcp_connection-answers}
use rcvd.Tests.Library.{lib}
use rcvd.Tests.Policies.{query}
use rcvd.Tests.Serving.{server, world, wire}

abbrev session : Session
session = record { lib = lib; wire = wire; unpack = λ s. some query; world = λ n. world }

abbrev two_queries : List Text
two_queries = codes "q1" ∷ codes "q2" ∷ []

serve_ends_example :
    serve (tcp_handler session) 30 0 server (codes "abc")
    ≡ serve_all (tcp_handler session) server (codes "abc")
serve_ends_example = serve_ends (tcp_handler session) 30 server (codes "abc") (omega arith)

-- The second message comes 4 seconds behind the first.
abbrev arriving : List Timed
arriving =
    ((10, 0) ∷ (0, 2) ∷ (0, b'q') ∷ (0, b'1') ∷ [])
    ∷ ((4000, 0) ∷ (0, 2) ∷ (900, b'q') ∷ (0, b'2') ∷ [])
    ∷ []

handle_tcp_connection-answers_example :
    ((handle_tcp_connection session server (all_of arriving)).0
      ≡ (answers (tcp_handler session) 0 server two_queries).0)
    × (read_frames
          (length (handle_tcp_connection session server (all_of arriving)).1)
          (handle_tcp_connection session server (all_of arriving)).1
        ≡ (answers (tcp_handler session) 0 server two_queries).1)
unfolding rcvd.Framing.frame
handle_tcp_connection-answers_example =
    handle_tcp_connection-answers session server two_queries arriving (λ m buf e. ground (arith, e))
      ((omega arith, omega arith), ((omega arith, omega arith), tt))
      (refl, omega arith, (refl, omega arith, tt))
      (λ q e buf packed. ground (arith, packed), (λ q e buf packed. ground (arith, packed), tt))
