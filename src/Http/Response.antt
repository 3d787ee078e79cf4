-- ===== src/Http/Response.antt =====
-- `HttpResponse` and `handle_route` of examples/http-server/main.cpp.
use cpp_coroutine_epoll.Common.{ℕ, List, [], ◌∷◌, ◌++◌, length, if◌then◌else◌}
use cpp_coroutine_epoll.Common.Bytes.{codes, bytes_eq}
use cpp_coroutine_epoll.Http.Lines.{cr, lf}
use cpp_coroutine_epoll.Http.Request.{HttpRequest, space}

pub record HttpResponse : Type 0 where
  pub status : ℕ
  pub status_text : List ℕ
  pub content_type : List ℕ
  pub body : List ℕ
  pub headers : List (List ℕ × List ℕ)

-- The contents of the files, which `load_static_files` puts into `g_index_html` and `g_status_json`.
pub record StaticFiles : Type 0 where
  pub index_html : List ℕ
  pub status_json : List ℕ

-- The `for` loop over `headers`, with `rest` behind it.
unfoldable pub header_lines : List (List ℕ × List ℕ) → List ℕ → List ℕ
header_lines [] rest = rest
header_lines ((key, value) ∷ headers) rest =
    key ++ codes ": " ++ value ++ cr ∷ lf ∷ header_lines headers rest

-- `HttpResponse::to_string`, where `digits` is std::to_string.
unfoldable pub to_string : (ℕ → List ℕ) → HttpResponse → List ℕ
unfolding header_lines
to_string digits r =
    (codes "HTTP/1.1 " ++ digits r.status ++ space ∷ r.status_text)
    ++ cr
      ∷ lf
      ∷ ((codes "Content-Type: " ++ r.content_type)
          ++ cr
            ∷ lf
            ∷ ((codes "Content-Length: " ++ digits (length r.body))
                ++ cr
                  ∷ lf
                  ∷ (codes "Connection: keep-alive"
                      ++ cr ∷ lf ∷ header_lines r.headers (cr ∷ lf ∷ r.body))))

unfoldable pub handle_route : StaticFiles → HttpRequest → HttpResponse
handle_route files request =
    if bytes_eq request.method (codes "GET")
    then (if bytes_eq request.path (codes "/")
        then record {
          status = 200;
          status_text = codes "OK";
          content_type = codes "text/html; charset=utf-8";
          body = files.index_html;
          headers = [];
        }
        else if bytes_eq request.path (codes "/hello")
        then record {
          status = 200;
          status_text = codes "OK";
          content_type = codes "text/plain; charset=utf-8";
          body = codes "Hello, World!\n";
          headers = [];
        }
        else if bytes_eq request.path (codes "/json")
        then record {
          status = 200;
          status_text = codes "OK";
          content_type = codes "application/json";
          body = files.status_json;
          headers = [];
        }
        else record {
          status = 404;
          status_text = codes "Not Found";
          content_type = codes "text/plain; charset=utf-8";
          body = codes "404 Not Found\n";
          headers = [];
        })
    else record {
      status = 405;
      status_text = codes "Method Not Allowed";
      content_type = codes "text/plain";
      body = codes "405 Method Not Allowed\n";
      headers = [];
    }
