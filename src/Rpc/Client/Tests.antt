-- ===== src/Rpc/Client/Tests.antt =====
-- Calls of a client whose server refuses writes.
use horaedb_client_rs.Prelude.{◌≡◌, none, some, [], bytes, inl, inr}
use horaedb_client_rs.Errors.{Error, Result}
use horaedb_client_rs.Rpc.{RpcContext, RouteRequest}
use horaedb_client_rs.Rpc.Client
use horaedb_client_rs.Rpc.Client.{Channel, RpcClientImpl}
use horaedb_client_rs.Rpc.Client.Laws.{calls-accepted}
use horaedb_client_rs.SqlQuery.Messages.{SqlQueryRequest, WriteRequest, OutputPb}

abbrev sample_client : RpcClientImpl Unit
sample_client = record {
  channel = record {
    call_sql_query = λ r. inl (record {
      header = some (record { code = 200; error = [] });
      output = some (OutputPb.affected_rows r.timeout);
    });
    call_write = λ r. inl (record {
      header = some (record { code = 500; error = bytes "full" });
      success = 0;
      failed = 0;
    });
    call_route = λ r. inr tt;
  };
  default_read_timeout = 60000;
  default_write_timeout = 5000;
  metadata = none;
}

abbrev sample_context : RpcContext
sample_context = record { database = some (bytes "db"); timeout = none }

abbrev query : SqlQueryRequest
query = record { context = record { database = bytes "db" }; tables = []; sql = bytes "select 1" }

abbrev write_request : WriteRequest
write_request = record { context = record { database = bytes "db" }; table_requests = [] }

abbrev route_request : RouteRequest
route_request = record { context = record { database = bytes "db" }; tables = [] }

calls-accepted_at_sample :
    (Client.sql_query sample_client sample_context query
      ≡ Result.ok (record { header = none; output = some (OutputPb.affected_rows 60000) }))
    × ((Client.write sample_client sample_context write_request
          ≡ Result.err (Error.server (record { code = 500; msg = bytes "full" })))
        × (Client.route sample_client sample_context route_request ≡ Result.err (Error.rpc tt)))
calls-accepted_at_sample =
    calls-accepted Unit sample_client sample_context query write_request route_request
