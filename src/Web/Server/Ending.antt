-- ===== src/Web/Server/Ending.antt =====
-- A request that ends the program.
use mini_container.Prelude.{ℕ, ◌≡◌, refl, ◌++◌, true, false, none, some, arith, get_elem?, ℤ, eqℤ}
use mini_container.Text.{Text, text, text_eq, snprintf, skip_space}
use mini_container.Kernel.{Kernel}
use mini_container.Config.{ContainerInfo, ContainerManager, cgroup_v2, is_running}
use mini_container.Resource.Paths.{cgroup_root, group_name}
use mini_container.Web.Request.{Pages, json_head, next_word, up_to_space, answer, handle_request}
use mini_container.Doubles.{Doubles}
use mini_container.Web.Containers.Throwing.{container_list_json-throws}
use mini_container.Web.Server.{Server, Reports, no_socket, c_string, serve_one, server_pages}

-- A request for the report of the containers.
abbrev pub list_request : Text → Text
list_request rest = text "GET /api/containers " ++ rest

method_of : (rest : Text) → (next_word (c_string (list_request rest))).0 ≡ text "GET"
unfolding next_word c_string text skip_space up_to_space
method_of rest = refl

path_of :
    (rest : Text)
    → (next_word (next_word (c_string (list_request rest))).1).0 ≡ text "/api/containers"
unfolding next_word c_string text skip_space up_to_space
path_of rest = refl

module _ {S : Type 0} (pages : Pages S) where
  answer-report :
      (s : S)
      → (answer pages (text "GET") (text "/api/containers") s).0
        ≡ elim (pages.containers s).0 [ none ↦ none | some json ↦ some (json_head ++ json) ]
  unfolding answer text text_eq
  answer-report s = refl

  request-throws :
      (rest : Text) (s : S)
      → (pages.containers s).0 ≡ none
      → (handle_request pages (c_string (list_request rest)) s).0 ≡ none
  unfolding handle_request
  request-throws rest s h = rw (method_of rest, path_of rest, answer-report s, h) refl

  serve_one-throws :
      (fd : ℤ) (rest : Text) (v : Server) (s : S)
      → eqℤ fd no_socket ≡ false
      → (pages.containers s).0 ≡ none
      → (serve_one pages (record { client = fd; request = some (list_request rest) }) (v, s)).0
        ≡ none
  unfolding serve_one
  serve_one-throws fd rest v s accepted h =
      let thrown = request-throws rest s h in ground (arith, accepted, thrown)

module _ (F : Doubles) (K : Kernel) (unset : ℕ) (html : Text) (m : ContainerManager) where
  -- Under cgroup v2, where a RUNNING container anywhere in the table has a `cpu.max` that holds
  -- "max" and a period whenever it is read, as it does for a group without a quota, a connection
  -- that asks for the list of containers ends the program by an exception.
  pub serve_one-ends :
      (info : ContainerInfo) (i : ℕ) (period : Text) (fd : ℤ) (rest : Text) (v : Server)
      (s : Reports K)
      → m.rm.version ≡ cgroup_v2
      → get_elem? m.containers i ≡ some info
      → is_running info.state ≡ true
      → ((w : K.World)
          → (K.read_text
              (snprintf 1024 (group_name cgroup_root m.rm info.id (text "/cpu.max")))
              w).0
            ≡ some (text "max " ++ period))
      → eqℤ fd no_socket ≡ false
      → (serve_one
          (server_pages F K unset html m)
          (record { client = fd; request = some (list_request rest) })
          (v, s)).0
        ≡ none
  unfolding server_pages
  serve_one-ends info i period fd rest v s two at on file accepted =
      serve_one-throws (server_pages F K unset html m) fd rest v s accepted
        (container_list_json-throws F K m two info on period file i (s.previous, s.world) at)
