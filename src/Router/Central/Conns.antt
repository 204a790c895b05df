-- ===== src/Router/Central/Conns.antt =====
-- `s_conns[0..s_conn_count)` of ble_central.c, a list of at most 8 connections.
use klippylink.Common.{
  ℕ, suc, Bool, false, Option, none, some, List, [], ◌∷◌, ◌++◌, leb, ◌==◌, if◌then◌else◌, length,
  get_or, set,
}

pub record Conn : Type 0 where
  pub conn_id : ℕ
  pub gattc_if : ℕ
  pub cmd_handle : ℕ
  pub tel_handle : ℕ
  pub cccd_handle : ℕ
  pub cmd_found : Bool
  pub tel_found : Bool
  pub cccd_found : Bool
  pub notifications_enabled : Bool

abbrev pub max_conns : ℕ
max_conns = 8

abbrev pub new_conn : ℕ → ℕ → Conn
new_conn conn_id gattc_if = record {
  conn_id = conn_id;
  gattc_if = gattc_if;
  cmd_handle = 0;
  tel_handle = 0;
  cccd_handle = 0;
  cmd_found = false;
  tel_found = false;
  cccd_found = false;
  notifications_enabled = false;
}

-- The slot at an index that a search has found.
abbrev pub conn_at : List Conn → ℕ → Conn
conn_at cs i = get_or cs i (new_conn 0 0)

unfoldable pub find_from : ℕ → List Conn → ℕ → Option ℕ
find_from conn_id [] i = none
find_from conn_id (c ∷ cs) i = if c.conn_id == conn_id then some i else find_from conn_id cs (suc i)

unfoldable pub find_conn : ℕ → List Conn → Option ℕ
find_conn conn_id cs = find_from conn_id cs 0

-- The table with the new connection, or `none` when it is full.
unfoldable pub alloc_conn : ℕ → ℕ → List Conn → Option (List Conn)
alloc_conn conn_id gattc_if cs =
    if leb max_conns (length cs) then none else some (cs ++ new_conn conn_id gattc_if ∷ [])

-- The first connection with the id goes, and those behind it move up.
unfoldable pub free_conn : ℕ → List Conn → List Conn
free_conn conn_id [] = []
free_conn conn_id (c ∷ cs) = if c.conn_id == conn_id then cs else c ∷ free_conn conn_id cs

unfoldable pub modify_conn : Conn → ℕ → List Conn → List Conn
modify_conn k i cs = set cs i k
