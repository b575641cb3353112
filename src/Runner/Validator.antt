-- ===== src/Runner/Validator.antt =====
-- Whether an attempt has made an artifact: `ArtifactValidator.validate` of
-- jump_agent_runner/jump_agent_runner/artifact.py.
pub mod Artifact
use Prim.Native.String.{◌++◌}
use gp_portal.Base.{String, Bool, true, false, Option, none, some, if◌then◌else◌}
use gp_portal.Domain.{Json, JsonFields}
use gp_portal.Runner.Types.{FailureReason, AgentTask, ValidationResult, accepted_from, rejected}
use gp_portal.Runner.World.{
  Reading, content, os_error, Parsing, parsed, decode_error, Platform, undecodable,
}
use gp_portal.Runner.Extract.{chars, text_of, extract_json_block}

-- `isinstance(data, dict)`
abbrev pub as_dict : Parsing → Option JsonFields
as_dict (parsed (Json.object d)) = some d
as_dict _ = none

module _ {W : Type 0} (os : Platform W) where
  -- Rule 1, what was read of the output.
  abbrev pub check_parsed : String → Parsing → ValidationResult
  check_parsed path (decode_error msg line column) = rejected FailureReason.artifact_invalid (
      "output_path existe mas não é JSON válido: " ++ msg ++ " (linha " ++ line ++ ", coluna "
      ++ column ++ ")")
  check_parsed path (parsed (Json.object d)) = accepted_from path d false
  check_parsed path (parsed x) =
      rejected FailureReason.artifact_invalid
        ("output_path contém JSON mas não é um objeto: tipo " ++ (os.type_name x))

  -- none is an exception, which nothing handles.
  abbrev pub check_output : String → Reading → Option ValidationResult
  check_output path (os_error exc) =
      some (rejected FailureReason.artifact_invalid ("output_path não pôde ser lido: " ++ exc))
  check_output path undecodable = none
  check_output path (content raw) = some (check_parsed path (os.loads raw))

  -- Rule 2: the block of the relay that is an object.
  abbrev pub recovered_data : Option String → Option JsonFields
  recovered_data none = none
  recovered_data (some block) = as_dict (os.loads block)

  abbrev pub recover : String → JsonFields → Option String × W → Option ValidationResult × W
  recover path d (none, w) = (some (accepted_from path d true), w)
  recover path d (some exc, w) = (
    some (
        rejected FailureReason.artifact_invalid
          ("JSON recuperado do relay mas falha ao gravar output_path: " ++ exc)),
    w,
  )

  -- Rule 3
  abbrev pub reject : Bool → ValidationResult
  reject true =
      rejected FailureReason.artifact_invalid
        "sentinel observado mas nenhum JSON válido encontrado em output_path nem relay"
  reject false = rejected FailureReason.sentinel_not_observed "nem sentinel nem artefato produzidos"

  abbrev pub block_of : String → Option String
  block_of relay = elim (extract_json_block (chars relay)) [
    | none ↦ none
    | some b ↦ some (text_of b)
  ]

  unfoldable pub validate : AgentTask → String → Bool → W → Option ValidationResult × W
  validate task relay sentinel_observed w =
      if os.exists_at w task.output_path
      then (check_output task.output_path (os.read_text w task.output_path), w)
      else elim (recovered_data (block_of relay)) [
        | none ↦ (some (reject sentinel_observed), w)
        | some d ↦ recover task.output_path d (os.write_text w task.output_path (os.dumps d))
      ]
