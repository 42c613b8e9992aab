-- ===== src/Tests/Web.antt =====
-- The web server at concrete inputs.
use mini_container.Prelude.{ℕ, ◌≡◌, refl, [], ◌∷◌, ◌++◌, ◌*◌, ◌/◌, ◌-◌, ltb, some, none, pos, arith}
use mini_container.Text.{Text, text, decimal}
use mini_container.Kernel.{Kernel}
use mini_container.Web.Request.{Pages, next_word, handle_request}
use mini_container.Web.Request.Status.{Answers, handle_request-Answers}
use mini_container.Resource.Limits.{quota_line}
use mini_container.Web.Quota.{quota_of_line}
use mini_container.Web.Quota.Written.{quota_of_line-quota_line}
use mini_container.Config.{ContainerManager, running}
use mini_container.Doubles.{Doubles}
use mini_container.Web.Server.Ending.{list_request, serve_one-ends}
use mini_container.Web.Server.{Reports, serve_one, server_pages, fresh_server}
use mini_container.Tests.Machine.{machine, empty_manager}

abbrev pages : Pages ℕ
pages = record {
  html = [];
  containers = λ n. (some (b'{' ∷ b'}' ∷ []), n);
  system = λ n. (none, n);
}

abbrev request : Text
request = text "GET /api/containers HTTP/1.1"

handle_request-Answers_example :
    Answers pages
      (next_word request).0
      (next_word (next_word request).1).0
      0
      (handle_request pages request 0).0
handle_request-Answers_example = handle_request-Answers pages request 0

quota_of_line-quota_line_example :
    quota_of_line (quota_line (pos 5000) (pos 100000)) ≡ some (5000, 100000)
quota_of_line-quota_line_example = quota_of_line-quota_line 5000 100000 (omega arith) (omega arith)

-- A machine on which every file holds the line of a group without a quota.
abbrev unlimited : Kernel
unlimited = record machine { read_text = λ path w. (some (text "max " ++ text "100000"), w) }

-- Whole numbers in place of floating-point ones.
abbrev pub whole : Doubles
whole = record {
  Double = ℕ;
  of_ulong = λ n. n;
  mul = λ a b. a * b;
  div = λ a b. a / b;
  sub = λ a b. a - b;
  less = λ a b. ltb a b;
  to_string = λ a. decimal (pos a);
  printed = λ n a. decimal (pos a);
}

abbrev live_manager : ContainerManager
live_manager = record empty_manager {
  containers =
      record {
        id = b'1' ∷ [];
        pid = pos 9;
        state = running;
        created_at = pos 1;
        started_at = pos 2;
        stopped_at = pos 0;
        saved_config = none;
      }
      ∷ [];
}

abbrev first_reports : Reports unlimited
first_reports = record {
  previous = record { cpu_usage = λ id. none; time = λ id. none };
  ticks = record { prev_idle = 0; prev_total = 0 };
  world = 5;
}

serve_one-ends_example :
    (serve_one
      (server_pages whole unlimited 0 [] live_manager)
      (record { client = pos 4; request = some (list_request (text "HTTP/1.1")) })
      (fresh_server, first_reports)).0
    ≡ none
serve_one-ends_example =
    serve_one-ends whole unlimited 0 [] live_manager
      (record {
        id = b'1' ∷ [];
        pid = pos 9;
        state = running;
        created_at = pos 1;
        started_at = pos 2;
        stopped_at = pos 0;
        saved_config = none;
      })
      0 (text "100000") (pos 4) (text "HTTP/1.1") fresh_server first_reports refl refl refl
      (λ w. refl) refl
