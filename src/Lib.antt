-- ===== src/Lib.antt =====
-- The Python API of the Ladybug database (src_py): its connections, the pool behind
-- `AsyncConnection`, its databases and query results, over the engine's native objects.
--
-- How the parts interact. A `Database` holds the native handles and chooses between the C API and
-- the pybind11 extension. A `Connection` belongs to a database and counts the calls that are in
-- flight, so that `close()` can wait for them. An `AsyncConnection` spreads queries over several
-- connections, with a thread pool. A `QueryResult` reads a native cursor and dies with its
-- connection and its database. Prepared statements are cached by the signatures of parameters.
--
-- Which file models which part:
-- Base, Outcome, Dict, Text: numbers, lists, Python's errors, dicts and strings.
-- Pool (src_py/async_connection.py, `AsyncConnection`): one function for each region that runs
--   under `self.lock` or between two waits. `Pool.Step` is the step relation of the event loop and
--   the worker threads; a state of the program is reachable if `Pool.Step.Reach` says so.
-- Calls (src_py/connection.py, `_tracks_call`, `_marks_udf_call`, `Connection.close`): the stacks of
--   the threads, `_calls_in_flight` and `_closing`, with the step relation in Calls.Step
--   and, in Calls.Gate, what a connection does as seen from outside. What close() closes once no call
--   is in flight is in Calls.Teardown, apart from the threads, with `init_connection`, which no count
--   of calls keeps from running beside it.
-- Signature (src_py/connection.py, `_pybind_value_signature`, `_capi_value_signature`): what
--   identifies the type of a parameter.
-- Settings (src_py/connection.py, `_setting_value`, `_apply_pending_settings`): queued settings.
--   They are applied to `_connection`; the second connection does not get them.
-- Statements (src_py/connection.py, `_get_or_prepare_pybind_statement` and
--   `_get_or_prepare_capi_statement`): the implicit cache of prepared statements.
-- Scans (src_py/connection.py, `_rewrite_local_scan_object`, `_rewrite_capi_python_scan`): the objects
--   of Python that a query scans, as tables for the time of the query, before Execution. Regular
--   expressions are parameters. Scans.Rewriting has the text of the queries.
-- Quote (src_py/connection.py, `_quote_identifier`, `_json_string_literal`): names and texts in
--   queries. Quote.Readers reads them back; the engine's reader is a parameter, with the rules that it has
--   for backticks, quotes and backslashes.
-- Json (src_py/connection.py, `_normalize_parameters_for_capi`, `_normalize_parameters_for_pybind`): the
--   parameters that a query takes as JSON. Regular expressions and the module `json` are parameters.
-- Fallback (src_py/connection.py, `create_function`, `remove_function`, `create_arrow_table`,
--   `drop_arrow_table`, `create_arrow_rel_table`, `_get_pybind_connection`, `interrupt`): the calls
--   that go to the extension where the C API does not have them.
-- Execution (src_py/connection.py, `Connection.execute`): which backend runs a query, its results,
--   and the temporary tables of scans.
-- Backend (src_py/_backend.py): the cached imports.
-- Database (src_py/database.py): the native handles, and in Database.Preference the choice of the
--   backend.
-- Rows (src_py/query_result.py): reading, the form of a row, closing, and the Arrow chunk size.
-- Networkx (src_py/query_result.py, `QueryResult.get_as_networkx`): the graph of a result, as the
--   sequence of calls that build it.
-- Properties (src_py/connection.py, `Connection._get_node_property_names`): the types of properties.
-- Features (src_py/torch_geometric_feature_store.py, `LbugFeatureStore`, and src_py/database.py,
--   `_scan_node_table`): which rows and which attributes are read, and how.
-- GraphStore (src_py/torch_geometric_graph_store.py, `LbugGraphStore`): the edge indices by their
--   keys. The tensors and the edges of the database are parameters.
-- TorchGeometric (src_py/torch_geometric_result_converter.py): TorchGeometric.Column one property,
--   TorchGeometric.Nodes the loop over the rows, TorchGeometric.Edges the edges and the data that
--   is given out. A tensor is the list it is made from; its shape is a parameter.
-- Binding (src_py/_lbug_capi.py, `_value_from_python`, `PreparedStatement`, `Connection.prepare`):
--   parameters as values of the C API. Binding.Scalars has the values that are no containers,
--   Binding.Values the containers, Binding.Statements the calls that bind them. A native value is
--   the number of those made before it; what the library answers is a parameter.
-- Convert (src_py/_lbug_capi.py, `QueryResult._convert_value`): what the C API answers of the values
--   of a result, as a tree, and the Python values made of it. Convert.Rendered has
--   `_parse_rendered_value`, for values that come as text; `ast.literal_eval`, `float` and `int` are
--   parameters there. Convert.Reader is the same conversion with the native objects that it obtains
--   and destroys, and Convert.Reader.Results `getNext`, `getColumnNames`,
--   `getColumnDataTypes` and `getErrorMessage`, until the result is closed. Dates, datetimes and
--   timedeltas have the ranges of Python, with the errors beyond them. Convert.Types has
--   the logical types, and the Python types that belong to them.
-- Csr (src_py/_lbug_capi.py, `QueryResult.getCSR`): the edges of a result in compressed rows.
-- Exit (src_py/_lbug_capi.py, `Database`, `Connection`, `_close_capi_connections`): the native
--   databases and connections, until the exit of the process, and what the garbage collector takes
--   from the weak sets before.
-- ArrowExport (src_py/_lbug_capi.py, `QueryResult.getAsArrow`): all rows in chunks. The native result is
--   an interface, a record of its calls, whose laws are those of a cursor.
--
-- State is passed explicitly (`Exec`), a Python exception is an `err` beside the state that was
-- reached. Objects (connections, calls, threads, handles) are numbers. The native engine and the
-- import machinery are parameters: a cursor with its two calls, native setters, or the answers they
-- give. Threads interleave at each step of a step relation; the order of steps is arbitrary.
--
-- Fuel: `Rows.get_all` has fuel, for `list(self)`, and so have the loops of ArrowExport; their theorems
-- ask for more fuel than there are rows, and then the rows are returned. `np.arange` (Features) is
-- given the distance of its ends as fuel, which is enough for a step above 0, by its theorem. All other
-- functions are structural recursion.
--
-- Not modelled: the engine and its bindings (src_cpp), the schemas of Arrow and the structures of ctypes,
-- the conversions into pandas, polars, pyarrow and torch tensors, warnings and context managers.
-- Pointers of the C API to texts are not null. A call on a pooled connection that does not go through
-- the pool is not tracked by it, in the model as in the code.
pub mod Base
pub mod Outcome
pub mod Dict
pub mod Pool
pub mod Binding
pub mod Convert
pub mod Csr
pub mod ArrowExport
pub mod Calls
pub mod Text
pub mod Backend
pub mod Database
pub mod Rows
pub mod Signature
pub mod Settings
pub mod Statements
pub mod Execution
pub mod Networkx
pub mod Properties
pub mod Quote
pub mod Fallback
pub mod Scans
pub mod Json
pub mod Exit
pub mod Features
pub mod GraphStore
pub mod TorchGeometric
