-- ===== src/DomainsPage/View.antt =====
-- What portal/web/app/pages/admin/domains.vue shows, with its table
-- portal/web/app/components/domains/DomainTable.vue and its editor
-- portal/web/app/components/domains/DomainEditor.vue.
pub mod Held
pub mod Started
use adscope_identity.Prelude.{
  String, Bool, true, false, ◌||◌, ltb, ℕ, if◌then◌else◌, Option, none, some, or_else, List, [],
  ◌∷◌, ◌++◌,
}
use adscope_identity.Text.Decimal.{decimal}
use adscope_identity.Types.{Domain, DomainForm}
use adscope_identity.Async.{modify}
use adscope_identity.View.{
  SelectOption, Element, title, words, button, form, submit, input, choice, table, row, when,
  for_each,
}
use adscope_identity.AdminApi.State.{Store}
use adscope_identity.AdminApi.{Action, Platform}
use adscope_identity.DomainsPage.{Page, is_shown, drawer_title, open_editor}
use adscope_identity.DomainsPage.Programs.{on_page, save_domain, refresh_domains, copy_syncer_key}

-- What the handlers of the template do.
pub data Intent : Type 0 where
  refreshes creates closes saves copies : Intent
  edits : Domain → Intent

-- Whether a handler sends a change to the server.
abbrev pub changes : Intent → Bool
changes saves = true
changes _ = false

abbrev pub close_drawer : Page → Page
close_drawer p = record p { drawer_open = false }

unfoldable pub perform : Platform → Intent → Action (Unit {0})
perform platform refreshes = refresh_domains platform
perform platform creates = modify (on_page (open_editor none))
perform platform closes = modify (on_page close_drawer)
perform platform saves = save_domain platform
perform platform copies = copy_syncer_key
perform platform (edits domain) = modify (on_page (open_editor (some domain)))

-- `busy`, for the number of requests in flight.
abbrev pub busy : ℕ → Page → Bool
busy pending p = p.saving || ltb 0 pending

-- The row of a domain, which opens the editor also while the page is busy, and its button.
unfoldable pub domain_row : Bool → Domain → List (Element Intent)
domain_row busy domain =
    row
      (domain.name
        ∷ domain.id
        ∷ domain.upn_suffix
        ∷ domain.mirror_root_dn
        ∷ (if domain.enabled then "启用" else "停用")
        ∷ decimal domain.applied_directory_revision
        ∷ decimal domain.applied_credential_revision
        ∷ [])
      (edits domain)
    ∷ button "编辑域" busy (edits domain)
    ∷ []

unfoldable pub domain_table : Bool → Bool → List Domain → List (Element Intent)
domain_table loading busy domains =
    table "还没有配置 AD 域" loading ("域" ∷ "UPN 后缀" ∷ "镜像根 DN" ∷ "状态" ∷ "目录版本" ∷ "凭据版本" ∷ "操作" ∷ [])
    ∷ for_each domains (domain_row busy)

-- The Boolean values, as texts.
abbrev pub enabled_options : List SelectOption
enabled_options =
    record { value = "true"; label = "启用"; disabled = false }
    ∷ record { value = "false"; label = "停用"; disabled = false }
    ∷ []

-- `DomainEditor` for the identifier that is edited.
unfoldable pub domain_editor : Option String → DomainForm → List (Element Intent)
domain_editor editing_id model =
    form "domain-form" saves
    ∷ input "域标识" model.id true (is_shown editing_id)
    ∷ input "域名称" model.name true false
    ∷ input "UPN 后缀" model.upn_suffix true false
    ∷ choice "状态" (if model.enabled then "true" else "false") false false enabled_options
    ∷ input "镜像根 DN" model.mirror_root_dn true false
    ∷ input "隔离 OU DN" model.quarantine_ou_dn true false
    ∷ input "工号属性" model.employee_id_attribute false false
    ∷ input "受管组标识属性" model.managed_group_id_attribute false false
    ∷ []

-- The key, once.
unfoldable pub key_shown : String → List (Element Intent)
key_shown key =
    title "Syncer key 仅显示一次"
    ∷ words "关闭后需要重新保存域配置才能生成新的 key。"
    ∷ input "SYNCER_ACCESS_KEY" key false true
    ∷ button "复制 key" false copies
    ∷ []

unfoldable pub drawer : Page → List (Element Intent)
drawer p = when p.drawer_open (
    title (drawer_title p)
      ∷ (if is_shown p.syncer_key
          then key_shown (or_else p.syncer_key "")
          else domain_editor p.selected_domain_id p.domain_form)
    ++ (button (if is_shown p.syncer_key then "关闭" else "取消") p.saving closes
        ∷ (if is_shown p.syncer_key then [] else submit "保存" p.saving "domain-form" ∷ [])))

unfoldable pub view : Store → List (Element Intent)
view s =
    let p = s.refs.catalog in
    let blocked = busy s.pending p in
    button "刷新" false refreshes
      ∷ button "新建" blocked creates
      ∷ domain_table s.flags.domains_loading blocked s.content.domains
    ++ drawer p
