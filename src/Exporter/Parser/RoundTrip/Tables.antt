-- ===== src/Exporter/Parser/RoundTrip/Tables.antt =====
-- The subcommands that print one line for each chunkserver, metadata server, disk or mount.
use mathlib.Core.List.{cons-ne-nil}
use leilfs_operator.Base.{
  ℕ, Bool, true, false, List, [], ◌∷◌, map, ◌≡◌, refl, ◌≤◌, All, All-append, ◌++◌, ok,
}
use leilfs_operator.Text.{Text, is_space, codes, text_eq, max_u64, decimal, parse_uint}
use leilfs_operator.Text.Decimal.{parse_uint-decimal, decimal-IsWord}
use leilfs_operator.Text.Fields.{IsWord, fields-join}
use leilfs_operator.Exporter.Parser.Records.{
  Chunkserver, chunkserver_of, chunkserver_line, parse_chunkservers, Metadataserver,
  metadataserver_of, metadataserver_line, parse_metadataservers,
}
use leilfs_operator.Exporter.Parser.Storage.{
  Disk, disk_of, disk_line, parse_disks, Mount, mount_of, mount_line, parse_mounts, is_yes,
}
use leilfs_operator.Exporter.Parser.RoundTrip.{Table, print_rows, collect-print_rows}

abbrev pub IsU64 : ℕ → Type 0
IsU64 n = n ≤ max_u64

pub decimals-IsWord : (ns : List ℕ) → All IsWord (map decimal ns)
decimals-IsWord [] = tt
decimals-IsWord (n ∷ ns) = (decimal-IsWord n, decimals-IsWord ns)

pub reads : (ns : List ℕ) → All IsU64 ns → All (λ n. parse_uint (decimal n) ≡ ok n) ns
reads [] h = tt
reads (n ∷ ns) (h, hs) = (parse_uint-decimal n h, reads ns hs)

abbrev disk_counts : Disk → List ℕ
disk_counts d = d.error_chunk_id ∷ d.error_timestamp ∷ d.total ∷ d.used ∷ d.chunks ∷ []

abbrev pub chunkserver_counts : Chunkserver → List ℕ
chunkserver_counts c =
    c.chunks ∷ c.used_space ∷ c.total_space ∷ c.to_del_chunks ∷ c.to_del_used_space
    ∷ c.to_del_total_space ∷ c.errors ∷ []

-- ip:port version chunkscount usedspace totalspace todelchunkscount todelusedspace todeltotalspace
-- errorcounter label
abbrev pub chunkserver_row : Chunkserver → List Text
chunkserver_row c = c.address ∷ c.version ∷ (map decimal (chunkserver_counts c) ++ c.label ∷ [])

pub record ChunkserverFits (c : Chunkserver) : Type 0 where
  pub texts : All IsWord (c.address ∷ c.version ∷ c.label ∷ [])
  pub counts : All IsU64 (chunkserver_counts c)
  -- a disconnected server is the one that prints "-" for its version
  pub disconnected : c.disconnected ≡ text_eq c.version (codes "-")

chunkserver_row-words : (c : Chunkserver) → ChunkserverFits c → All IsWord (chunkserver_row c)
chunkserver_row-words c h =
    let (address, (version, label)) = h.texts in
    (
      address,
      (
        version,
        All-append IsWord (map decimal (chunkserver_counts c)) (c.label ∷ [])
            (decimals-IsWord (chunkserver_counts c)) label,
      ),
    )

chunkserver_of-row :
    (c : Chunkserver) → ChunkserverFits c → chunkserver_of (chunkserver_row c) ≡ ok c
unfolding chunkserver_of
chunkserver_of-row c h =
    let (p0, (p1, (p2, (p3, (p4, (p5, (p6, _))))))) = reads (chunkserver_counts c) h.counts in
    simp (p0, p1, p2, p3, p4, p5, p6, ← h.disconnected)

chunkserver_table : Table Chunkserver
unfolding chunkserver_line
chunkserver_table = record {
  line = chunkserver_line;
  row = chunkserver_row;
  Fits = ChunkserverFits;
  row-IsRow = λ c h. (cons-ne-nil _ _, chunkserver_row-words c h);
  line-row = λ c h. rw (fields-join _ (chunkserver_row-words c h)) (chunkserver_of-row c h);
}

-- Any chunkservers printed in the documented layout, whatever ends the lines, are read back as they
-- are, if their texts are words, their counts fit in 64 bits and the disconnected ones are those
-- whose version prints as "-".
pub parse_chunkservers-print_rows :
    (crlf : Bool) (css : List Chunkserver)
    → All ChunkserverFits css
    → parse_chunkservers (print_rows crlf (map chunkserver_row css)) ≡ ok css
unfolding parse_chunkservers chunkserver_table
parse_chunkservers-print_rows crlf css h = collect-print_rows chunkserver_table crlf css h

abbrev pub metadataserver_counts : Metadataserver → List ℕ
metadataserver_counts m = m.port ∷ m.metadata_version ∷ []

-- ip port hostname personality serverStatus metadataVersion version
abbrev pub metadataserver_row : Metadataserver → List Text
metadataserver_row m =
    m.ip
    ∷ decimal m.port
    ∷ m.hostname
    ∷ m.personality
    ∷ m.server_status
    ∷ decimal m.metadata_version
    ∷ m.version
    ∷ []

pub record MetadataserverFits (m : Metadataserver) : Type 0 where
  pub texts : All IsWord (m.ip ∷ m.hostname ∷ m.personality ∷ m.server_status ∷ m.version ∷ [])
  pub counts : All IsU64 (metadataserver_counts m)

metadataserver_row-words :
    (m : Metadataserver) → MetadataserverFits m → All IsWord (metadataserver_row m)
metadataserver_row-words m h =
    let (ip, (hostname, (personality, (status, version)))) = h.texts in
    (ip, (num m.port, (hostname, (personality, (status, (num m.metadata_version, version))))))
  where
    num : (n : ℕ) → IsWord (decimal n)
    num n = decimal-IsWord n

metadataserver_of-row :
    (m : Metadataserver) → MetadataserverFits m → metadataserver_of (metadataserver_row m) ≡ ok m
unfolding metadataserver_of
metadataserver_of-row m h =
    let (p0, (p1, _)) = reads (metadataserver_counts m) h.counts in simp (p0, p1)

metadataserver_table : Table Metadataserver
unfolding metadataserver_line
metadataserver_table = record {
  line = metadataserver_line;
  row = metadataserver_row;
  Fits = MetadataserverFits;
  row-IsRow = λ m h. (cons-ne-nil _ _, metadataserver_row-words m h);
  line-row = λ m h. rw (fields-join _ (metadataserver_row-words m h)) (metadataserver_of-row m h);
}

-- Any metadata servers printed in the documented layout, whatever ends the lines, are read back as
-- they are, if their texts are words and their ports and metadata versions fit in 64 bits.
pub parse_metadataservers-print_rows :
    (crlf : Bool) (mss : List Metadataserver)
    → All MetadataserverFits mss
    → parse_metadataservers (print_rows crlf (map metadataserver_row mss)) ≡ ok mss
unfolding parse_metadataservers metadataserver_table
parse_metadataservers-print_rows crlf mss h = collect-print_rows metadataserver_table crlf mss h

abbrev pub yes_no : Bool → Text
yes_no true = codes "yes"
yes_no false = codes "no"

is_yes-yes_no : (b : Bool) → is_yes (yes_no b) ≡ b
unfolding text_eq
is_yes-yes_no true = refl
is_yes-yes_no false = refl

flags-IsWord : (bs : List Bool) → All IsWord (map yes_no bs)
unfolding is_space
flags-IsWord [] = tt
flags-IsWord (true ∷ bs) = ((cons-ne-nil _ _, (refl, (refl, (refl, tt)))), flags-IsWord bs)
flags-IsWord (false ∷ bs) = ((cons-ne-nil _ _, (refl, (refl, tt))), flags-IsWord bs)

-- cs_addr path to_delete damaged scanning errorChunkId errorTimeStamp total used chunksCount
abbrev pub disk_row : Disk → List Text
disk_row d =
    d.chunkserver_address
    ∷ d.path
    ∷ yes_no d.to_delete
    ∷ yes_no d.damaged
    ∷ yes_no d.scanning
    ∷ map decimal (disk_counts d)

pub record DiskFits (d : Disk) : Type 0 where
  pub texts : All IsWord (d.chunkserver_address ∷ d.path ∷ [])
  pub counts : All IsU64 (disk_counts d)

disk_row-words : (d : Disk) → DiskFits d → All IsWord (disk_row d)
disk_row-words d h = (
  h.texts.0,
  (
    h.texts.1.0,
    All-append IsWord (map yes_no flags) (map decimal (disk_counts d)) (flags-IsWord flags)
        (decimals-IsWord (disk_counts d)),
  ),
)
  where
    flags : List Bool
    flags = d.to_delete ∷ d.damaged ∷ d.scanning ∷ []

disk_of-row : (d : Disk) → DiskFits d → disk_of (disk_row d) ≡ ok d
unfolding disk_of
disk_of-row d h =
    let (p0, (p1, (p2, (p3, (p4, _))))) = reads (disk_counts d) h.counts in
    simp (p0, p1, p2, p3, p4, is_yes-yes_no)

disk_table : Table Disk
unfolding disk_line
disk_table = record {
  line = disk_line;
  row = disk_row;
  Fits = DiskFits;
  row-IsRow = λ d h. (cons-ne-nil _ _, disk_row-words d h);
  line-row = λ d h. rw (fields-join _ (disk_row-words d h)) (disk_of-row d h);
}

-- Any disks printed in the documented layout, whatever ends the lines, are read back as they are, if
-- their addresses and paths are words and their counts fit in 64 bits.
pub parse_disks-print_rows :
    (crlf : Bool) (ds : List Disk)
    → All DiskFits ds
    → parse_disks (print_rows crlf (map disk_row ds)) ≡ ok ds
unfolding parse_disks disk_table
parse_disks-print_rows crlf ds h = collect-print_rows disk_table crlf ds h

abbrev pub mount_counts : Mount → List ℕ
mount_counts m = m.session_id ∷ m.root_uid ∷ m.root_gid ∷ m.map_all_uid ∷ m.map_all_gid ∷ []

abbrev pub mount_flags : Mount → List Bool
mount_flags m =
    m.read_only ∷ m.restricted_ip ∷ m.ignore_gid ∷ m.all_can_change_quota ∷ m.map_all ∷ []

-- sessionId peerIp info version path rootuid rootgid mapalluid mapallgid readonly restrictedIp
-- ignoregid allCanChangeQuota mapAll
abbrev pub mount_row : Mount → List Text
mount_row m =
    decimal m.session_id
    ∷ m.peer_ip
    ∷ m.info
    ∷ m.version
    ∷ m.path
    ∷ decimal m.root_uid
    ∷ decimal m.root_gid
    ∷ decimal m.map_all_uid
    ∷ decimal m.map_all_gid
    ∷ map yes_no (mount_flags m)

pub record MountFits (m : Mount) : Type 0 where
  pub texts : All IsWord (m.peer_ip ∷ m.info ∷ m.version ∷ m.path ∷ [])
  pub counts : All IsU64 (mount_counts m)

mount_row-words : (m : Mount) → MountFits m → All IsWord (mount_row m)
mount_row-words m h =
    let (peer_ip, (info, (version, (path, _)))) = h.texts in
    let ids : All IsWord (map decimal (mount_counts m)) = decimals-IsWord (mount_counts m) in
    (
      ids.0,
      (
        peer_ip,
        (
          info,
          (
            version,
            (
              path,
              (ids.1.0, (ids.1.1.0, (ids.1.1.1.0, (ids.1.1.1.1.0, flags-IsWord (mount_flags m))))),
            ),
          ),
        ),
      ),
    )

mount_of-row : (m : Mount) → MountFits m → mount_of (mount_row m) ≡ ok m
unfolding mount_of
mount_of-row m h =
    let (p0, (p1, (p2, (p3, (p4, _))))) = reads (mount_counts m) h.counts in
    simp (p0, p1, p2, p3, p4, is_yes-yes_no)

mount_table : Table Mount
unfolding mount_line
mount_table = record {
  line = mount_line;
  row = mount_row;
  Fits = MountFits;
  row-IsRow = λ m h. (cons-ne-nil _ _, mount_row-words m h);
  line-row = λ m h. rw (fields-join _ (mount_row-words m h)) (mount_of-row m h);
}

-- Any mounts printed in the documented layout, whatever ends the lines, are read back as they are, if
-- their texts are words and their numbers fit in 64 bits.
pub parse_mounts-print_rows :
    (crlf : Bool) (ms : List Mount)
    → All MountFits ms
    → parse_mounts (print_rows crlf (map mount_row ms)) ≡ ok ms
unfolding parse_mounts mount_table
parse_mounts-print_rows crlf ms h = collect-print_rows mount_table crlf ms h
