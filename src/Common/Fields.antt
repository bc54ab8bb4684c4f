-- ===== src/Common/Fields.antt =====
-- `strings.Fields`
use mathlib.Core.List.{List, [], ◌∷◌, ◌++◌}
use ztna_lab_appliance.Common.Strings.{Text, is_empty, is_space}
use ztna_lab_appliance.Common.Tests.{if◌then◌else◌}

-- The field that has been read, if it is not empty.
abbrev pub flush : Text → List Text → List Text
flush cur rest = if is_empty cur then rest else cur ∷ rest

fields_from : Text → Text → List Text
fields_from cur [] = flush cur []
fields_from cur (c ∷ s) =
    let next = fields_from [] s in
    let longer = fields_from (cur ++ c ∷ []) s in if is_space c then flush cur next else longer

-- `strings.Fields`
unfoldable pub fields : Text → List Text
unfolding fields_from is_space
fields line = fields_from [] line
