-- ===== src/Locale/Catalog/Second.antt =====
-- The second half of the dictionary `english` of web/src/locale.js.
use senix.Prelude.{String, List, [], ◌∷◌}

abbrev pub second_messages : List (String × String)
second_messages =
    ("后端状态", "Backend state")
    ∷ ("后端选择", "Backend selection")
    ∷ ("模拟一个请求", "Diagnose a request")
    ∷ (
      "使用当前正在接流的 Snapshot 检查路由命中和后端资格，不会向业务后端发送请求。",
      "Check route matching and backend eligibility against the active Snapshot. No request is sent to an application backend.",
    )
    ∷ ("路径", "Path")
    ∷ ("正在检查…", "Checking…")
    ∷ ("诊断结果", "Diagnostic result")
    ∷ ("查看原始证据 JSON", "View raw evidence JSON")
    ∷ ("复制原始 JSON", "Copy raw JSON")
    ∷ (
      "输入 Host 和路径后，证据链会按实际决策顺序出现在这里。",
      "Enter a Host and path to see evidence in the order used to make the routing decision.",
    )
    ∷ ("变更状态 {status}", "Change status {status}")
    ∷ ("回滚至 Snapshot {version}", "Rollback to Snapshot {version}")
    ∷ ("待发布", "Pending")
    ∷ (
      "{actor} 创建于 {time} · {count} 个路由差异", "Created by {actor} at {time} · Route changes: {count}",
    )
    ∷ ("批准已过期，需由 Owner 重新批准", "Approval expired. The Owner must approve again.")
    ∷ ("批准有效至 {time}", "Approval valid until {time}")
    ∷ ("配置内容未变化", "Configuration content is unchanged")
    ∷ ("查看完整候选配置", "View complete candidate configuration")
    ∷ ("批准这份内容", "Approve this exact content")
    ∷ ("修正校验问题后重新规划", "Fix validation issues and create a new plan")
    ∷ ("重新批准这份内容", "Approve this exact content again")
    ∷ ("应用已批准计划", "Apply approved plan")
    ∷ ("以 v{version} 创建回滚计划", "Plan rollback to v{version}")
    ∷ ("JSON 格式不正确，先修正后再规划。", "Invalid JSON. Correct it before creating a plan.")
    ∷ ("计划已保存，发现 {count} 个问题", "Plan saved. Validation issues: {count}")
    ∷ ("变更计划已保存，等待批准", "Change plan saved. Waiting for approval.")
    ∷ (
      "已生成回滚到 v{version} 的计划，仍需批准",
      "Rollback plan to v{version} created. Owner approval is still required.",
    )
    ∷ ("计划已批准", "Plan approved")
    ∷ ("已发布为新配置快照", "Published a new configuration Snapshot")
    ∷ ("当前 Snapshot", "Current Snapshot")
    ∷ (
      "候选配置必须先生成不可修改的计划。批准只绑定计划中显示的摘要和完整内容。",
      "A candidate must first become an immutable plan. Approval binds only the displayed digest and exact content.",
    )
    ∷ ("规划配置", "Plan configuration")
    ∷ (
      "编辑完整配置只会生成计划，不会直接影响正在处理的流量。",
      "Editing the complete configuration creates a plan. It does not directly change live traffic.",
    )
    ∷ ("正在校验…", "Validating…")
    ∷ ("生成变更计划", "Create change plan")
    ∷ ("完整候选配置 JSON", "Complete candidate configuration JSON")
    ∷ ("批准队列", "Approval queue")
    ∷ (
      "AI 和脚本可以规划；只有 Owner 可以批准；带 change.apply 的 Key 只能应用已经批准的精确计划。",
      "AI clients and scripts can propose plans. Only the Owner can approve them. A change.apply Key can apply only the exact approved plan.",
    )
    ∷ ("还没有配置变更计划。", "No configuration change plans yet.")
    ∷ ("本机引导", "Local bootstrap")
    ∷ ("所有资源", "All resources")
    ∷ ("、", ", ")
    ∷ ("账号创建后失效", "Invalidated when the account is created")
    ∷ ("已失效 {time}", "Revoked {time}")
    ∷ ("有效至 {time}", "Valid until {time}")
    ∷ ("吊销", "Revoke")
    ∷ ("至少选择一个动作和一个实例范围。", "Select at least one action and an instance scope.")
    ∷ (
      "诊断、配置变更、证书和审计动作必须选择“所有当前和未来实例”。",
      "Diagnostics, configuration, certificate and audit actions require All current and future instances.",
    )
    ∷ ("用途模板", "Key presets")
    ∷ ("选择用途", "Purpose")
    ∷ ("自定义权限", "Custom permissions")
    ∷ (
      "手动选择允许动作和实例范围。调整模板中的权限后会切换为自定义。",
      "Choose actions and instance scope manually. Editing a preset switches to custom permissions.",
    )
    ∷ (
      "诊断和配置动作需要全局范围。模板覆盖所有当前和未来实例，请核对下方权限后签发；Key 不会自动生成。",
      "Diagnostic and configuration actions require global scope. Presets cover all current and future instances. Review the grants below before issuing a Key; choosing a preset does not issue one.",
    )
    ∷ ("名称", "Name")
    ∷ ("有效期", "Validity")
    ∷ ("24 小时", "24 hours")
    ∷ ("7 天", "7 days")
    ∷ ("30 天", "30 days")
    ∷ ("不过期", "Never expires")
    ∷ ("允许动作", "Allowed actions")
    ∷ ("实例范围", "Instance scope")
    ∷ ("所有当前和未来实例", "All current and future instances")
    ∷ ("暂无实例", "No instances")
    ∷ ("正在生成…", "Generating…")
    ∷ ("生成 Key", "Generate Key")
    ∷ (
      "立即吊销 “{label}”？使用这个 Key 的脚本和 AI 会马上失去访问权限。",
      "Revoke “{label}” now? Scripts and AI clients using this Key will lose access immediately.",
    )
    ∷ ("Key 已吊销", "Key revoked")
    ∷ (
      "给脚本和 AI 发最小权限。完整 Key 只出现一次。",
      "Give scripts and AI clients only the access they need. The complete Key is shown once.",
    )
    ∷ ("还没有 Credential。", "No credentials yet.")
    ∷ ("历史版本", "Historical")
    ∷ ("已过期", "Expired")
    ∷ ("即将到期", "Expiring soon")
    ∷ ("使用中", "Active")
    ∷ ("证书有效期进度", "Certificate lifetime progress")
    ∷ ("签发 ", "Issued ")
    ∷ ("到期 ", "Expires ")
    ∷ ("续期中…", "Renewing…")
    ∷ ("续期", "Renew")
    ∷ ("至少填写一个域名。", "Enter at least one domain.")
    ∷ (
      "证书已签发并切换到 TLS generation {generation}",
      "Certificate issued and activated at TLS generation {generation}",
    )
    ∷ (
      "服务端尚未配置 ACME 目录、联系人和条款确认。",
      "The server needs an ACME directory, contact and terms acceptance configured first.",
    )
    ∷ ("证书存储尚未启用", "Certificate storage is not enabled")
    ∷ ("先在服务端配置 ", "Configure this server option first: ")
    ∷ (
      "。主密钥只放在外部文件，数据库只保存密文。",
      ". Keep the master key in an external file. The database stores only ciphertext.",
    )
    ∷ (
      "查看当前与历史版本。签发由用户或脚本触发，Senix 不会自行安排续期。",
      "View active and historical versions. Users or scripts trigger issuance; Senix does not schedule renewals.",
    )
    ∷ ("签发并热切换", "Issue and activate without restart")
    ∷ (
      "域名必须先解析到这台网关的 HTTP 入口；每行一个域名，不支持通配符。",
      "Domains must resolve to this gateway's HTTP entry point. Enter one per line. Wildcards are not supported.",
    )
    ∷ ("域名", "Domains")
    ∷ ("正在验证并签发…", "Validating and issuing…")
    ∷ ("开始签发", "Start issuance")
    ∷ (
      "还没有托管证书。配置 ACME 后可在这里手动签发。",
      "No managed certificates yet. Configure ACME to issue one manually here.",
    )
    ∷ (
      "这里记录操作者、动作、资源和结果，不保存 Key 或请求密文。",
      "Records actors, actions, resources and outcomes. Keys and encrypted request data are not stored here.",
    )
    ∷ ("还没有审计记录。", "No audit events yet.")
    ∷ ("已复制到剪贴板", "Copied to clipboard")
    ∷ ("复制失败，请手动选择并复制", "Copy failed. Select and copy manually.")
    ∷ ("现在保存这个 Key", "Save this Key now")
    ∷ (
      "关闭后无法找回。遗失时请生成新 Key，再吊销旧 Key。",
      "You cannot retrieve it after closing. If lost, create a new Key and revoke the old one.",
    )
    ∷ ("复制 Key", "Copy Key")
    ∷ ("我已保存", "I saved it")
    ∷ ("更新于 {time}", "Updated {time}")
    ∷ ("尚未刷新", "Not refreshed yet")
    ∷ ("刷新", "Refresh")
    ∷ ("正在连接 Senix…", "Connecting to Senix…")
    ∷ ("语言", "Language")
    ∷ ("Senix 控制台", "Senix control desk")
    ∷ []
