-- ===== src/Directory.antt =====
-- What server/list.h promises of the store: a directory from names to accounts, in which no order
-- and no node is left. Each operation gives its return code and the directory after it.
use ssdd_final.Base.{Bool, Option, none, some, [], if◌then◌else◌}
use ssdd_final.CString.{Bytes, strcmp_eq, is_set}
use ssdd_final.Registry.Defs.{ℤ, pos, negsuc}

pub record Account : Type 0 where
  pub ip : Bytes
  pub port : Bytes
  pub files : Bytes → Option Bytes

abbrev pub Directory : Type 0
Directory = Bytes → Option Account

abbrev pub put {ℓ} : {V : Type ℓ} → Bytes → Option V → (Bytes → Option V) → Bytes → Option V
put name v d k = if strcmp_eq name k then v else d k

abbrev pub empty_account : Account
empty_account = record { ip = []; port = []; files = λ f. none }

-- `room` is whether memory is left
unfoldable pub register : Bool → Bytes → Directory → ℤ × Directory
register room name d = elim (d name) [
  | some a ↦ (pos 1, d)
  | none ↦ if room then (pos 0, put name (some empty_account) d) else (negsuc 0, d)
]

unfoldable pub unregister : Bytes → Directory → ℤ × Directory
unregister name d = elim (d name) [ some a ↦ (pos 0, put name none d) | none ↦ (pos 1, d) ]

unfoldable pub connect : Option Bytes → Bytes → Bytes → Directory → ℤ × Directory
connect peer port name d = elim (d name) [
  | none ↦ (pos 1, d)
  | some a ↦ if is_set a.ip then (pos 2, d) else elim peer [
    | none ↦ (pos 3, d)
    | some addr ↦ (pos 0, put name (some (record a { ip = addr; port = port })) d)
  ]
]

unfoldable pub disconnect : Bytes → Directory → ℤ × Directory
disconnect name d = elim (d name) [
  | none ↦ (pos 1, d)
  | some a ↦
      if is_set a.ip
      then (pos 0, put name (some (record a { ip = []; port = [] })) d)
      else (pos 2, d)
]

unfoldable pub publish : Bool → Bytes → Bytes → Bytes → Directory → ℤ × Directory
publish room name file description d = elim (d name) [
  | none ↦ (pos 1, d)
  | some a ↦
      if is_set a.ip
      then elim (a.files file) [
        | some old ↦ (pos 3, d)
        | none ↦
            if room
            then (
              pos 0,
              put name (some (record a { files = put file (some description) a.files })) d,
            )
            else (pos 4, d)
      ]
      else (pos 2, d)
]

unfoldable pub delete : Bytes → Bytes → Directory → ℤ × Directory
delete name file d = elim (d name) [
  | none ↦ (pos 1, d)
  | some a ↦
      if is_set a.ip
      then elim (a.files file) [
        | some old ↦ (pos 0, put name (some (record a { files = put file none a.files })) d)
        | none ↦ (pos 3, d)
      ]
      else (pos 2, d)
]
