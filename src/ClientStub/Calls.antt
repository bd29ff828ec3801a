-- ===== src/ClientStub/Calls.antt =====
-- The calls of a client against the servers of source/server/tree_skel.c: what reaches the tree and
-- the tasks, and what comes back.
use sdistr2020_group.Prelude.{
  true, eqb_ℤ_refl, false, if◌then◌else◌, ◌≡◌, Option, none, some, List, [], ◌∷◌, ◌++◌, refl, sym,
  ap, ◌∙◌, arith, ℤ, negsuc, eqb_ℤ,
}
use sdistr2020_group.Prelude.{map}
use sdistr2020_group.Entry.{Str, Entry, strdup}
use sdistr2020_group.Message.{
  op_get, op_put, op_del, op_size, op_height, op_getkeys, op_verify, Message, Content, entry_to_msg,
}
use sdistr2020_group.Message.Copies.{terminated, msg_to_keys-keys_to_msg, IsStorable}
use sdistr2020_group.Tree.{Tree, tree_get, tree_size, tree_height, tree_get_keys}
use sdistr2020_group.Tree.Invariant.{IsValid}
use sdistr2020_group.Tree.Keys.{keys, tree_get_keys_exact}
use sdistr2020_group.Tasks.{Tasks, tasks_add_task, tasks_get_result, task_result_code}
use sdistr2020_group.Skel.{
  is_entry, is_key, op_id_of, Server, invoke, invoke2, fill_error, invoke_tree_get,
  invoke_tree_get_keys, invoke_write_operation, invoke_verify, invoke_tree_size, invoke_tree_height,
}
use sdistr2020_group.ClientStub.Responses.{
  value_response, value_response_lem, response_value_lem, keys_response, keys_response_lem,
  named_keys,
}
use sdistr2020_group.ClientStub.{
  response_value, response_keys, response_op_id, int_result_of, is_read, is_write, Rtree, Transport,
  network_send_receive, rtree_put, rtree_get, rtree_del, rtree_size, rtree_height, rtree_get_keys,
  rtree_verify,
}

-- The primary and the backup server.
pub record Servers : Type 0 where
  pub primary : Server
  pub backup : Server

abbrev at_primary : Servers → Server × Option Message → Servers × Option Message
at_primary s (server, response) = (record s { primary = server }, response)

abbrev at_backup : Servers → Server × Option Message → Servers × Option Message
at_backup s (server, response) = (record s { backup = server }, response)

-- Sockets that lead to the servers: one to the primary, every other to the backup. A request
-- arrives, `invoke` serves it, and the response comes back.
abbrev pub direct : ℤ → Option Str → Transport Servers
direct primary_sockfd junk = record {
  exchange = λ s sockfd request.
      if eqb_ℤ sockfd primary_sockfd
      then at_primary s (invoke junk s.primary (some request))
      else at_backup s (invoke junk s.backup (some request));
}

-- A backup server with a tree.
abbrev pub servers : Server → Tree → Tasks → Servers
servers p t q = record { primary = p; backup = record { tree = some t; tasks = q } }

module _ (rtree : Rtree) (junk : Option Str)
    (apart : eqb_ℤ rtree.backup_sockfd rtree.primary_sockfd ≡ false) where
  abbrev net : Transport Servers
  net = direct rtree.primary_sockfd junk

  -- Reads go to the backup server, writes to the primary one.
  send_read :
      (s : Servers) (request : Message)
      → is_read request.op_code ≡ true
      → network_send_receive net s (some rtree) request
        ≡ at_backup s (invoke junk s.backup (some request))
  unfolding network_send_receive
  send_read s request h = ground (arith, h, apart)

  send_write :
      (s : Servers) (request : Message)
      → is_read request.op_code ≡ false
      → is_write request.op_code ≡ true
      → network_send_receive net s (some rtree) request
        ≡ at_primary s (invoke junk s.primary (some request))
  unfolding network_send_receive
  send_write s request h w = ground (arith, h, w, eqb_ℤ_refl rtree.primary_sockfd)

  invoke_get :
      (t : Tree) (q : Tasks) (key : Str)
      → invoke junk
          (record { tree = some t; tasks = q })
          (some (record { op_code = op_get; content = Content.key (some key) }))
        ≡ (
          record { tree = some t; tasks = q },
          some (fill_error (value_response (tree_get (some t) (some key)))),
        )
  unfolding invoke invoke2 value_response invoke_tree_get
  invoke_get t q key =
      ap (λ (m : Message). (record { tree = some t; tasks = q }, some (fill_error m)))
        (value_response_lem (tree_get (some t) (some key)))

  pub read_get :
      (p : Server) (t : Tree) (q : Tasks) (key : Str)
      → IsStorable (tree_get (some t) (some key))
      → rtree_get net (servers p t q) (some rtree) (some key)
        ≡ (servers p t q, tree_get (some t) (some key))
  unfolding rtree_get strdup
  read_get p t q key h =
      ap (λ (r : Servers × Option Message). (r.0, response_value r.1))
        (send_read (servers p t q) (record { op_code = op_get; content = Content.key (some key) })
            refl
          ∙ ap (at_backup (servers p t q)) (invoke_get t q key))
      ∙ ap (λ v. (servers p t q, v)) (response_value_lem (tree_get (some t) (some key)) h)

  pub read_size :
      (p : Server) (t : Tree) (q : Tasks)
      → rtree_size net (servers p t q) (some rtree) ≡ (servers p t q, tree_size (some t))
  unfolding rtree_size invoke invoke2 invoke_tree_size fill_error int_result_of
  read_size p t q =
      ap (λ (r : Servers × Option Message). (r.0, int_result_of (negsuc 0) r.1))
        (send_read (servers p t q) (record { op_code = op_size; content = Content.not_set }) refl)

  pub read_height :
      (p : Server) (t : Tree) (q : Tasks)
      → rtree_height net (servers p t q) (some rtree) ≡ (servers p t q, tree_height (some t))
  unfolding rtree_height invoke invoke2 invoke_tree_height fill_error int_result_of
  read_height p t q =
      ap (λ (r : Servers × Option Message). (r.0, int_result_of (negsuc 1) r.1))
        (send_read (servers p t q) (record { op_code = op_height; content = Content.not_set }) refl)

  pub read_verify :
      (p : Server) (t : Tree) (q : Tasks) (op_id : ℤ)
      → rtree_verify net (servers p t q) (some rtree) op_id
        ≡ (servers p t q, task_result_code (tasks_get_result op_id q))
  unfolding rtree_verify invoke invoke2 invoke_verify op_id_of fill_error int_result_of
  read_verify p t q op_id =
      ap (λ (r : Servers × Option Message). (r.0, int_result_of (negsuc 0) r.1))
        (send_read (servers p t q) (record { op_code = op_verify; content = Content.op_id op_id })
          refl)

  pub read_keys :
      (p : Server) (t : Tree) (q : Tasks) (ks : List Str)
      → tree_get_keys junk (some t) ≡ some (terminated ks)
      → rtree_get_keys net (servers p t q) (some rtree)
        ≡ (servers p t q, tree_get_keys junk (some t))
  unfolding rtree_get_keys invoke invoke2 invoke_tree_get_keys fill_error response_keys
      keys_response
  read_keys p t q ks h =
      ap (λ (r : Servers × Option Message). (r.0, response_keys r.1))
        (send_read (servers p t q) (record { op_code = op_getkeys; content = Content.not_set })
          refl)
      ∙ ap (λ m. (servers p t q, response_keys (some (fill_error m))))
          (keys_response_lem (tree_get_keys junk (some t)))
      ∙ ap (λ o. (servers p t q, response_keys (some (fill_error (keys_response o))))) h
      ∙ ap (λ o. (servers p t q, o)) (msg_to_keys-keys_to_msg ks ∙ sym h)

  pub write_put :
      (t : Tree) (q : Tasks) (b : Server) (e : Entry)
      → let request : Message = record {
        op_code = op_put;
        content = Content.entry (entry_to_msg (some e));
      } in
        rtree_put net
          (record { primary = record { tree = some t; tasks = q }; backup = b })
          (some rtree)
          (some e)
        ≡ (
          record {
            primary = record { tree = some t; tasks = (tasks_add_task (some request) q).0 };
            backup = b;
          },
          (tasks_add_task (some request) q).1,
        )
  unfolding rtree_put invoke invoke2 invoke_write_operation is_entry is_key fill_error
      response_op_id
  write_put t q b e =
      ap (λ (r : Servers × Option Message). (r.0, response_op_id r.1))
        (send_write (record { primary = record { tree = some t; tasks = q }; backup = b })
          (record { op_code = op_put; content = Content.entry (entry_to_msg (some e)) }) refl refl)

  write_del :
      (t : Tree) (q : Tasks) (b : Server) (key : Str)
      → let request : Message = record { op_code = op_del; content = Content.key (some key) } in
        rtree_del net
          (record { primary = record { tree = some t; tasks = q }; backup = b })
          (some rtree)
          (some key)
        ≡ (
          record {
            primary = record { tree = some t; tasks = (tasks_add_task (some request) q).0 };
            backup = b;
          },
          (tasks_add_task (some request) q).1,
        )
  unfolding rtree_del invoke invoke2 invoke_write_operation is_entry is_key fill_error
      response_op_id strdup
  write_del t q b key =
      ap (λ (r : Servers × Option Message). (r.0, response_op_id r.1))
        (send_write (record { primary = record { tree = some t; tasks = q }; backup = b })
          (record { op_code = op_del; content = Content.key (some key) }) refl refl)

  pub key_array :
      (t : Tree)
      → IsValid t
      → (ks : List Str) × (keys t.root ≡ map some ks)
        × (tree_get_keys junk (some t) ≡ some (terminated ks))
  unfolding terminated
  key_array t v =
      let (array, asc, named, exact) = tree_get_keys_exact junk t v in
      let (ks, e) = named_keys (keys t.root) named in
      (ks, e, array ∙ ap (λ xs. some (xs ++ (none ∷ []))) e)

  -- What a client that is connected to two different sockets reads is what the tree and the tasks of
  -- the backup server hold, and reading changes neither server: the value at a key, the size, the
  -- height, the keys, and the result of an operation. The tree is valid, and the value that stands
  -- at the key, if any, has a size that is that of its block.
  pub rtree_reads :
      (p : Server) (t : Tree) (q : Tasks) (key : Str) (op_id : ℤ)
      → IsValid t
      → IsStorable (tree_get (some t) (some key))
      → (rtree_get net (servers p t q) (some rtree) (some key)
          ≡ (servers p t q, tree_get (some t) (some key)))
        × (rtree_size net (servers p t q) (some rtree) ≡ (servers p t q, tree_size (some t)))
        × (rtree_height net (servers p t q) (some rtree) ≡ (servers p t q, tree_height (some t)))
        × (rtree_get_keys net (servers p t q) (some rtree)
            ≡ (servers p t q, tree_get_keys junk (some t)))
        × (rtree_verify net (servers p t q) (some rtree) op_id
            ≡ (servers p t q, task_result_code (tasks_get_result op_id q)))
  rtree_reads p t q key op_id v h =
      let (ks, named, e) = key_array t v in
      (
        read_get p t q key h,
        read_size p t q,
        read_height p t q,
        read_keys p t q ks e,
        read_verify p t q op_id,
      )

  -- A put and a deletion of a client reach the tasks of the primary server alone, as a request that
  -- carries the entry or the key, and the client gets the identifier of the task. The primary
  -- server has a tree, and the client is connected to two different sockets.
  pub rtree_writes :
      (t : Tree) (q : Tasks) (b : Server) (e : Entry) (key : Str)
      → let put : Message = record {
        op_code = op_put;
        content = Content.entry (entry_to_msg (some e));
      } in
        let del : Message = record { op_code = op_del; content = Content.key (some key) } in
        let s : Servers = record { primary = record { tree = some t; tasks = q }; backup = b } in
        let queued = λ (request : Message). record s {
          primary = record { tree = some t; tasks = (tasks_add_task (some request) q).0 };
        } in
        (rtree_put net s (some rtree) (some e) ≡ (queued put, (tasks_add_task (some put) q).1))
        × (rtree_del net s (some rtree) (some key) ≡ (queued del, (tasks_add_task (some del) q).1))
  rtree_writes t q b e key = (write_put t q b e, write_del t q b key)
