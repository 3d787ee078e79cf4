-- ===== src/Http/Files.antt =====
-- `read_file` and `load_static_files` of examples/http-server/main.cpp. `disk` has the contents of the
-- files that can be opened.
use Prim.Native.String.{String, ◌++◌}
use cpp_coroutine_epoll.Common.{ℕ, Option, none, some, List}
use cpp_coroutine_epoll.System.{Exception, runtime_error}
use cpp_coroutine_epoll.Http.Response.{StaticFiles}

pub data FileRead : Type 0 where
  contents : List ℕ → FileRead
  not_read : Exception → FileRead

pub data Loading : Type 0 where
  loaded : StaticFiles → Loading
  not_loaded : Exception → Loading

unfoldable pub read_file : (String → Option (List ℕ)) → String → FileRead
read_file disk path = elim (disk path) [
  | none ↦ not_read (runtime_error ("cannot open: " ++ path))
  | some bytes ↦ contents bytes
]

unfoldable pub load_static_files : (String → Option (List ℕ)) → Loading
unfolding read_file
load_static_files disk = elim (read_file disk "../examples/http-server/static/index.html") [
  | not_read e ↦ not_loaded e
  | contents index ↦ elim (read_file disk "../examples/http-server/static/status.json") [
    | not_read e ↦ not_loaded e
    | contents status ↦ loaded (record { index_html = index; status_json = status })
  ]
]

-- What it throws.
abbrev pub loading_error : Loading → Option Exception
loading_error (loaded files) = none
loading_error (not_loaded e) = some e
