-- ===== src/Messages/Dialog.antt =====
-- What of a call's options the server is told, and under which names.
use signalwire_node.Common.{
  ◌≡◌, refl, ◌∙◌, false, ◌||◌, Option, none, String, includes, All, Bool-cases, inl, inr,
  if◌then◌else◌,
}
use signalwire_node.Common.Dict.{Dict, lookup}
use signalwire_node.Common.Json.{Json}
use signalwire_node.Messages.{renamings, private_names, without_names, dialog_params}
use signalwire_node.Messages.Renaming.{
  client_names, names, IsTable, source, or_else, client_names-names, told_by, rename_all-told_by,
  lookup-without_names, disjoint, source-without_names, source_none,
}

-- What the server is told under a name.
abbrev pub told : String → Dict Json → Option Json
told name options =
    if includes private_names name || includes (client_names renamings) name
    then none
    else or_else (source renamings name options) (lookup name options)

private-IsDisjoint : All (λ x. includes (names renamings) x ≡ false) private_names
private-IsDisjoint = (refl, (refl, (refl, (refl, (refl, (refl, (refl, tt)))))))

renamings-IsTable : IsTable renamings
renamings-IsTable = (
  refl,
  refl,
  refl,
  (
    refl,
    refl,
    refl,
    (refl, refl, refl, (refl, refl, refl, (refl, refl, refl, (refl, refl, refl, tt)))),
  ),
)

told_by-told :
    (options : Dict Json) (name : String)
    → told_by renamings name (without_names private_names options) ≡ told name options
told_by-told options name =
    let kept = lookup-without_names private_names name options in
    let o = without_names private_names options in
    elim (Bool-cases (includes private_names name)) [
      | inl e ↦
          let unlisted = disjoint private_names (names renamings) name private-IsDisjoint e in
          rw
            (
              client_names-names renamings name unlisted,
              source_none renamings name o unlisted,
              kept,
              e,
            )
            refl
      | inr e ↦
          rw
            (
              source-without_names renamings private_names name options
                  (refl, (refl, (refl, (refl, (refl, (refl, tt)))))),
              kept,
              e,
            )
            refl
    ]

-- The dialog params of a request have exactly what the server may be told: nothing that the client
-- keeps to itself, under none of the names that are renamed, under each of their new names the value
-- of the old one, if there is one, and all else as it is in the options.
pub dialog_params-told :
    (options : Dict Json) (name : String) → lookup name (dialog_params options) ≡ told name options
unfolding dialog_params
dialog_params-told options name =
    rename_all-told_by renamings name (without_names private_names options) renamings-IsTable
    ∙ told_by-told options name
