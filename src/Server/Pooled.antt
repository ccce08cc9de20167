-- ===== src/Server/Pooled.antt =====
-- tcpserver/pooled_goroutine_server.go: the connection loop and the commands of the pooled server.
-- Its handleAuth, parseTTLFromParts and processCommandDirect have the text of the methods of the
-- same names in single_goroutine_server.go.
use ant_cache.Base.{ℤ, Bool, false, List, [], Option, Text}
use ant_cache.Item.{Compression}
use ant_cache.Cache.{Cache}
use ant_cache.Cache.Valid.{IsValid}
use ant_cache.Server
use ant_cache.Server.{Server, Answer, TtlParts}
use ant_cache.Server.Commands.{Verb}
use ant_cache.Server.Session.{
  Received, Session, Serves, serve, handle_text_connection, handle_text_connection-Serves,
}

unfoldable pub parse_ttl_from_parts : Verb → List Text → TtlParts
parse_ttl_from_parts = Server.parse_ttl_from_parts

module _ {z : Compression} where
  unfoldable pub handle_auth : Server z → Cache z → Bool → List Text → Answer z
  handle_auth = Server.handle_auth

  unfoldable pub process_command_direct : Server z → Cache z → ℤ → Bool → Text → Option (Answer z)
  process_command_direct = Server.process_command_direct

  unfoldable pub handle_text_connection_task :
      Server z → List Received → Cache z → Option (Session z)
  handle_text_connection_task s lines c = serve (process_command_direct s) lines (record {
    cache = c;
    authenticated = false;
    total_requests = 0;
    total_responses = 0;
    written = [];
  })

  -- The pooled server too serves a connection to an end without a panic whatever lines it sends,
  -- from a well-formed cache to a well-formed cache, with no more responses than requests.
  handle_text_connection_task-Serves :
      (s : Server z) (lines : List Received) (c : Cache z)
      → IsValid c
      → Serves (handle_text_connection_task s lines c)
  unfolding handle_text_connection_task process_command_direct
  handle_text_connection_task-Serves s lines c v =
      unfold handle_text_connection in handle_text_connection-Serves s lines c v
