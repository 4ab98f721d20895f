-- ===== src/StreamProto/Server.antt =====
-- shared/streamproto/tcpserver.go, Run: which connections the accept loop serves. A step is an
-- accepted connection or the end of a serve goroutine, in the order in which they reach `clients`.
use instachron.Base.{ℕ, ◌+◌, ◌-◌, ◌≤◌, ◌<◌, ◌≡◌, refl, arith, ◌&&◌}
use instachron.Base.{List, [], ◌∷◌, ◌++◌, length, length-append, ltb, leb, if◌then◌else◌}

pub record TcpServer : Type 0 where
  pub max_clients : ℕ
  pub clients : ℕ
  pub serving : List ℕ

pub new_server : ℕ → TcpServer
new_server max_clients = record { max_clients = max_clients; clients = 0; serving = [] }

-- A connection over the limit is closed at once.
pub accept : TcpServer → ℕ → TcpServer
accept s conn =
    if ltb 0 s.max_clients && leb s.max_clients s.clients
    then s
    else record s { clients = s.clients + 1; serving = conn ∷ s.serving }

-- The deferred close and decrement of one connection that is being served.
pub finish : TcpServer → List ℕ → TcpServer
finish s rest = record s { clients = s.clients - 1; serving = rest }

pub data Step : TcpServer → TcpServer → Type 0 where
  accepts : (s : TcpServer) (conn : ℕ) → Step s (accept s conn)
  finishes :
      (s : TcpServer) (before after : List ℕ) (conn : ℕ)
      → s.serving ≡ before ++ (conn ∷ after)
      → Step s (finish s (before ++ after))

pub data Reach (s : TcpServer) : TcpServer → Type 0 where
  here : Reach s s
  next : {t u : TcpServer} → Reach s t → Step t u → Reach s u

pub record Inv (limit : ℕ) (s : TcpServer) : Type 0 where
  pub same_limit : s.max_clients ≡ limit
  pub counted : s.clients ≡ length s.serving
  pub bounded : 0 < limit → length s.serving ≤ limit

accept-Inv : (limit : ℕ) (s : TcpServer) (conn : ℕ) → Inv limit s → Inv limit (accept s conn)
unfolding accept
accept-Inv limit s conn v = ground arith

finish-Inv :
    (limit : ℕ) (s : TcpServer) (before after : List ℕ) (conn : ℕ)
    → s.serving ≡ before ++ (conn ∷ after)
    → Inv limit s
    → Inv limit (finish s (before ++ after))
unfolding finish
finish-Inv limit s before after conn e v =
    ground (arith, length-append before after, length-append before (conn ∷ after))

Step-Inv : {limit : ℕ} {s t : TcpServer} → Step s t → Inv limit s → Inv limit t
Step-Inv {limit} (accepts s conn) v = accept-Inv limit s conn v
Step-Inv {limit} (finishes s before after conn e) v = finish-Inv limit s before after conn e v

Reach-Inv : {limit : ℕ} {s t : TcpServer} → Inv limit s → Reach s t → Inv limit t
Reach-Inv v here = v
Reach-Inv v (next r st) = Step-Inv st (Reach-Inv v r)

-- At every moment ClientCount is the number of connections being served, and with a limit set
-- that number stays within it.
pub reachable-Inv : (limit : ℕ) (s : TcpServer) → Reach (new_server limit) s → Inv limit s
unfolding new_server
reachable-Inv limit s r =
    Reach-Inv (record { same_limit = refl; counted = refl; bounded = λ h. omega arith }) r

-- A server with a positive limit never serves more clients than that, and its client count is the
-- number of connections that it serves.
pub reachable_bounded :
    (limit : ℕ) (s : TcpServer)
    → 0 < limit
    → Reach (new_server limit) s
    → (s.clients ≡ length s.serving) × (length s.serving ≤ limit)
reachable_bounded limit s positive r =
    let v = reachable-Inv limit s r in (v.counted, v.bounded positive)
