-- ===== src/Web/Server.antt =====
-- `start`, `stop` and what `serverThread` of `SimpleWebServer` does, each as a step of its own, and
-- the port of src/web_server_main.cpp. The answers of the socket calls are arguments.
pub mod Ending
use mini_container.Prelude.{
  ℕ, Bool, true, false, [], ◌∷◌, List, Option, none, some, if◌then◌else◌, Exec, pure, ◌>>=◌, ◌>>◌,
  ℤ, pos, negsuc, eqℤ, not, ◌==◌,
}
use mini_container.Text.{Text, atoi}
use mini_container.Kernel.{Kernel}
use mini_container.Config.{ContainerManager}
use mini_container.Manager.Table.{Sys}
use mini_container.Manager.Runs.{container_manager_init, container_manager_cleanup}
use mini_container.Web.Request.{Pages, handle_request}
use mini_container.Doubles.{Doubles}
use mini_container.Web.Containers.{Previous, container_list_json}
use mini_container.Web.System.{Ticks, system_info_json}

abbrev pub no_socket : ℤ
no_socket = negsuc 0

-- The members, with the descriptors that were closed and what was sent to which client, newest
-- first.
pub record Server : Type 0 where
  pub running : Bool
  pub server_socket : ℤ
  pub closed : List ℤ
  pub sent : List (ℤ × Text)

abbrev pub fresh_server : Server
fresh_server = record { running = false; server_socket = no_socket; closed = []; sent = [] }

abbrev close_socket : ℤ → Server → Server
close_socket fd v = record v { closed = fd ∷ v.closed }

-- The thread that it starts is `server_thread`.
unfoldable pub start : Server → Server
start v = if v.running then v else record v { running = true }

unfoldable pub stop : Server → Server
stop v =
    let halted = record v { running = false } in
    if not v.running
    then v
    else if not (eqℤ v.server_socket no_socket)
    then record (close_socket v.server_socket halted) { server_socket = no_socket }
    else halted

-- What the calls return that make the listening socket; `bind` and `listen` as whether they
-- succeed.
pub record Listener : Type 0 where
  pub socket : ℤ
  pub bound : Bool
  pub listening : Bool

-- Whether the loop is entered.
unfoldable pub listen_on : Listener → Server → Bool × Server
listen_on l v =
    let open_one = record v { server_socket = l.socket } in
    if eqℤ l.socket no_socket
    then (false, open_one)
    else if not l.bound
    then (false, record (close_socket l.socket open_one) { server_socket = no_socket })
    else if not l.listening
    then (false, close_socket l.socket open_one)
    else (true, open_one)

-- A turn of the loop: the result of `accept`, and the bytes of `read` if there are any.
pub record Exchange : Type 0 where
  pub client : ℤ
  pub request : Option Text

-- A buffer as a string.
unfoldable pub c_string : Text → Text
c_string [] = []
c_string (c ∷ s) = if c == 0 then [] else c ∷ c_string s

module _ {S : Type 0} (pages : Pages S) where
  -- An exception that nothing catches is a failure.
  unfoldable pub serve_one : Exchange → Exec (Server × S) (Unit {0})
  unfolding c_string
  serve_one e (v, s) =
      let closing = close_socket e.client v in
      if eqℤ e.client no_socket then (some tt, (v, s)) else elim e.request [
        | none ↦ (some tt, (closing, s))
        | some bytes ↦
            let (response, s') = handle_request pages (c_string bytes) s in
            elim response [
              | none ↦ (none, (v, s'))
              | some r ↦ (some tt, (record closing { sent = (e.client, r) ∷ v.sent }, s'))
            ]
      ]

  unfoldable pub serve : List Exchange → Exec (Server × S) (Unit {0})
  unfolding serve_one
  serve [] = pure tt
  serve (e ∷ es) = do serve_one e; serve es

  -- What the thread does behind the loop. It and `stop` use the socket at once and nothing orders
  -- them: their interleaving is not modelled, each is a definition of its own.
  unfoldable pub end_thread : Server → Server
  end_thread v = record (close_socket v.server_socket v) { server_socket = no_socket }

-- What the two reports keep between requests, and the system.
pub record Reports (K : Kernel) : Type 0 where
  pub previous : Previous
  pub ticks : Ticks
  pub world : K.World

module _ (F : Doubles) (K : Kernel) (unset : ℕ) (html : Text) where
  open K use {World}

  -- `unset` is what a variable holds that is not read; `html` the text of `generateHTML`.
  unfoldable pub server_pages : ContainerManager → Pages (Reports K)
  server_pages m = record {
    html = html;
    containers = λ s.
        let (json, (previous, w)) = container_list_json F K m (s.previous, s.world) in
        (json, record s { previous = previous; world = w });
    system = λ s.
        let (json, (ticks, w)) = system_info_json F K unset (s.ticks, s.world) in
        (json, record s { ticks = ticks; world = w });
  }

  unfoldable pub port_of : List Text → ℤ
  port_of [] = pos 808
  port_of (port ∷ args) = atoi port
