-- ===== src/Kv/Notices.antt =====
-- kvraft/server.go: registering at an index, and the notice to the channel of an index.
use distribution_system.Prelude.{
  ℕ, ◌≡◌, refl, Bool, not, ◌&&◌, Option, none, some, List, [], ◌∷◌, ◌++◌, ◌==◌, sym, ◌∙◌, arith,
  length, get_elem?, set, get_elem?-append_right, ◌+◌, ap,
}
use distribution_system.Prelude.Dict.{lookup, insert, nat_eq}
use distribution_system.Kv.Types.{Op, KvServer, Notification}
use distribution_system.Kv.Server.{applied, notify, notification}
use distribution_system.Kv.Waiting.{register}

-- The result of the handler of `op`, if the notice is for `winner`.
unfoldable pub is_other : Op → Op → Bool
is_other op winner =
    not ((winner.client_id == op.client_id) && (winner.request_id == op.request_id))

pub register_fresh :
    (index : ℕ) (kv : KvServer)
    → lookup index kv.dispatcher ≡ none
    → register index kv ≡ (
      record kv {
        dispatcher = insert index (length kv.channels) kv.dispatcher;
        channels = kv.channels ++ none ∷ [];
      },
      length kv.channels,
    )
unfolding register
register_fresh index kv h = ground arith

-- The channel behind the others.
pub get_elem?-last :
    (chs : List (Option Notification)) → get_elem? (chs ++ none ∷ []) (length chs) ≡ some none
get_elem?-last chs =
    let e : length chs + 0 ≡ length chs = omega arith in
    sym (ap (get_elem? (chs ++ none ∷ [])) e) ∙ get_elem?-append_right chs (none ∷ []) 0

pub notify_sends :
    (index ch : ℕ) (op : Op) (kv : KvServer)
    → lookup index kv.dispatcher ≡ some ch
    → get_elem? kv.channels ch ≡ some none
    → notify index op kv
      ≡ applied (record kv { channels = set kv.channels ch (some (notification op)) })
unfolding notify
notify_sends index ch op kv l g = rw (notify, l, g) refl
