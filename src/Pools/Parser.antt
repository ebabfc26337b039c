-- ===== src/Pools/Parser.antt =====
-- lnst/Controller/AgentMachineParser.py: from the tags of a valid document to a machine's data.
use lnst.Prelude.{String, Option, none, some, List, [], ◌∷◌, map}
use lnst.Prelude.Text.{strip}
use lnst.Prelude.Exc.{Result, ok, or_raise, ◌>>=◌, attribute_error}
use lnst.Pools.{ParamXml, IfaceXml, Security, MachineXml}

-- The attributes "name" and "value"
pub record ParamTag : Type 0 where
  pub name : String
  pub value : String

pub record EthTag : Type 0 where
  pub id : String
  pub label : String
  pub params : Option (List ParamTag)

-- The texts of "auth_type", "auth_password" and "pubkey_path", where there are such tags
pub record SecTag : Type 0 where
  pub auth_type : Option String
  pub auth_password : Option String
  pub pubkey_path : Option String

pub record MachineTag : Type 0 where
  pub params : Option (List ParamTag)
  pub interfaces : Option (List EthTag)
  pub security : Option SecTag

unfoldable pub process_param : ParamTag → ParamXml
process_param tag = record { name = strip tag.name; value = strip tag.value }

unfoldable pub process_params : Option (List ParamTag) → List ParamXml
process_params none = []
process_params (some tags) = map process_param tags

-- Set only `if len(params) > 0`
abbrev pub if_any : {A : Type 0} → List A → Option (List A)
if_any [] = none
if_any (x ∷ xs) = some (x ∷ xs)

unfoldable pub process_interface : EthTag → IfaceXml
process_interface tag = record {
  id = strip tag.id;
  network = strip tag.label;
  params = if_any (process_params tag.params);
}

-- The first argument is os.path's normal form of a path that the file names.
unfoldable pub process_security : (String → String) → Option SecTag → Result Security
process_security norm_path none = ok (record { auth_type = "none"; keys = none })
process_security norm_path (some tag) = or_raise tag.auth_type attribute_error >>= λ auth_type.
    ok (record {
      auth_type = strip auth_type;
      keys = some (
        elim tag.auth_password [ none ↦ "" | some text ↦ text ],
        elim tag.pubkey_path [ none ↦ "" | some path ↦ norm_path path ],
      );
    })

abbrev pub process_interfaces : Option (List EthTag) → Option (List IfaceXml)
process_interfaces none = none
process_interfaces (some tags) = if_any (map process_interface tags)

unfoldable pub process : (String → String) → MachineTag → Result MachineXml
process norm_path tag = process_security norm_path tag.security >>= λ security. ok (record {
  params = if_any (process_params tag.params);
  interfaces = process_interfaces tag.interfaces;
  security = security;
})
