-- ===== src/Calls/Error.antt =====
-- The errors of calls on a connection that is closed or busy.
use ladybug_python.Outcome.{PyError, runtime_error}

abbrev pub closed : PyError
closed = runtime_error "Connection is closed."

abbrev pub in_udf : PyError
in_udf = runtime_error "A UDF cannot use a connection while it runs a query."

abbrev pub close_in_udf : PyError
close_in_udf =
    runtime_error "close() cannot be called from a UDF while the connection runs a query."

abbrev pub close_in_call : PyError
close_in_call = runtime_error "close() cannot be called from a call on the same connection."
