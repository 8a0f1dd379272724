-- ===== src/Controller/Chunks/Keys.antt =====
-- The keys of the objects of chunk servers.
use mathlib.Core.List.{append_cancel_left, append_cancel_right}
use leilfs_operator.Base.{◌++◌, ◌≡◌, ◌≢◌, refl, ap}
use leilfs_operator.Text.{Text, codes}
use leilfs_operator.Api.{LeilFsCluster}
use leilfs_operator.Controller.Kube.{Key, Kind, service, config_map, stateful_set, claim}
use leilfs_operator.Controller.Defaults.{in_namespace}
use leilfs_operator.Controller.Chunks.{chunk_name}

-- The objects of a chunk server: the headless service, the list of disks, the StatefulSet, and the
-- claim of a server that was discovered.
pub data Part : Type 0 where
  headless hdd set bound : Part

abbrev pub part_kind : Part → Kind
part_kind headless = service
part_kind hdd = config_map
part_kind set = stateful_set
part_kind bound = claim

-- All carry the name of the StatefulSet, the list of disks with a suffix.
abbrev pub object_key : LeilFsCluster → Part → Text → Key
object_key c headless name = in_namespace c service name
object_key c hdd name = in_namespace c config_map (name ++ codes "-hdd")
object_key c set name = in_namespace c stateful_set name
object_key c bound name = in_namespace c claim name

abbrev pub part_key : LeilFsCluster → Part → Text → Key
part_key c p server = object_key c p (chunk_name c server)

pub chunk_name_injective :
    (c : LeilFsCluster) (n m : Text) → chunk_name c n ≡ chunk_name c m → n ≡ m
chunk_name_injective c n m e =
    append_cancel_left (codes "-chunk-") n m
      (append_cancel_left c.name (codes "-chunk-" ++ n) (codes "-chunk-" ++ m) e)

kind_of : (c : LeilFsCluster) (p : Part) (n : Text) → (object_key c p n).kind ≡ part_kind p
kind_of c headless n = refl
kind_of c hdd n = refl
kind_of c set n = refl
kind_of c bound n = refl

-- Objects of one part differ by their names.
pub object_key_injective :
    (c : LeilFsCluster) (p : Part) (n m : Text) → object_key c p n ≡ object_key c p m → n ≡ m
object_key_injective c headless n m e = ap (λ (k : Key). k.name) e
object_key_injective c hdd n m e =
    append_cancel_right n m (codes "-hdd") (ap (λ (k : Key). k.name) e)
object_key_injective c set n m e = ap (λ (k : Key). k.name) e
object_key_injective c bound n m e = ap (λ (k : Key). k.name) e

-- Objects of different kinds differ.
pub object_key-object_key :
    (c : LeilFsCluster) (p q : Part) (n m : Text)
    → part_kind p ≢ part_kind q
    → object_key c p n ≢ object_key c q m
object_key-object_key c p q n m h e =
    let kinds : (object_key c p n).kind ≡ (object_key c q m).kind = ap (λ (k : Key). k.kind) e in
    let left = kind_of c p n in let right = kind_of c q m in h (cc)

-- Whatever the parts are, objects of two names have different keys.
pub object_key-ne :
    (c : LeilFsCluster) (p q : Part) (n m : Text) → n ≢ m → object_key c p n ≢ object_key c q m
object_key-ne c headless headless n m h e = h (object_key_injective c headless n m e)
object_key-ne c hdd hdd n m h e = h (object_key_injective c hdd n m e)
object_key-ne c set set n m h e = h (object_key_injective c set n m e)
object_key-ne c bound bound n m h e = h (object_key_injective c bound n m e)
object_key-ne c headless hdd n m h e = object_key-object_key c headless hdd n m (λ e. cc) e
object_key-ne c headless set n m h e = object_key-object_key c headless set n m (λ e. cc) e
object_key-ne c headless bound n m h e = object_key-object_key c headless bound n m (λ e. cc) e
object_key-ne c hdd headless n m h e = object_key-object_key c hdd headless n m (λ e. cc) e
object_key-ne c hdd set n m h e = object_key-object_key c hdd set n m (λ e. cc) e
object_key-ne c hdd bound n m h e = object_key-object_key c hdd bound n m (λ e. cc) e
object_key-ne c set headless n m h e = object_key-object_key c set headless n m (λ e. cc) e
object_key-ne c set hdd n m h e = object_key-object_key c set hdd n m (λ e. cc) e
object_key-ne c set bound n m h e = object_key-object_key c set bound n m (λ e. cc) e
object_key-ne c bound headless n m h e = object_key-object_key c bound headless n m (λ e. cc) e
object_key-ne c bound hdd n m h e = object_key-object_key c bound hdd n m (λ e. cc) e
object_key-ne c bound set n m h e = object_key-object_key c bound set n m (λ e. cc) e

pub part_key-ne :
    (c : LeilFsCluster) (p q : Part) (n m : Text) → n ≢ m → part_key c p n ≢ part_key c q m
part_key-ne c p q n m h =
    object_key-ne c p q (chunk_name c n) (chunk_name c m) (λ e. h (chunk_name_injective c n m e))

pub part_key-part_key :
    (c : LeilFsCluster) (p q : Part) (n m : Text)
    → part_kind p ≢ part_kind q
    → part_key c p n ≢ part_key c q m
part_key-part_key c p q n m = object_key-object_key c p q (chunk_name c n) (chunk_name c m)
